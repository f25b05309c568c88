-- ===== src/Consul/Client.antt =====
-- consul/consul.go: the discovery of the servers, and the choice of a server for a call.
pub mod Sound
use native.Mathlib.Nat.{mod-lt}
use consul_timeline.Common.{
  ℕ, zero, suc, ◌+◌, ◌%◌, ◌≤◌, ◌<◌, ◌≡◌, refl, ap, ◌∙◌, Bool, true, false, Option, none, some, List,
  [], ◌∷◌, if◌then◌else◌, length, map, get_elem?, arith,
}
use consul_timeline.Common.Text.{Text}
use consul_timeline.Common.Int.{ℤ}

-- What the catalog says of a server.
pub record Entry : Type 0 where
  pub address : Text
  pub datacenter : Text
  pub port : ℤ

-- `net.TCPAddr`.
pub record Address : Type 0 where
  pub ip : Text
  pub port : ℤ

-- `Consul`: `once` is the state of `readyOnce`, `ready` says whether the channel is closed, and
-- `index` is the one of `watchServers`.
pub record Client : Type 0 where
  pub dc : Text
  pub servers : List Address
  pub server_index : ℕ
  pub once : Bool
  pub ready : Bool
  pub index : ℕ

-- `New`.
abbrev pub new_client : Client
new_client = record {
  dc = [];
  servers = [];
  server_index = 0;
  once = false;
  ready = false;
  index = 0;
}

-- What Consul answers to the query for the servers.
pub data Reply : Type 0 where
  failed : Reply
  listed : List Entry → ℕ → Reply

-- `readyOnce.Do`; to close a closed channel panics, which is `none`.
abbrev pub do_once : Entry → Client → Option Client
do_once e c =
    if c.once
    then some c
    else if c.ready
    then none
    else some (record c { dc = e.datacenter; once = true; ready = true })

-- `parse_ip` is `net.ParseIP`.
module _ (parse_ip : Text → Text) where
  abbrev pub address_of : Entry → Address
  address_of e = record { ip = parse_ip e.address; port = e.port }

  abbrev pub with_index : ℕ → Option Client → Option Client
  with_index i none = none
  with_index i (some c) = some (record c { index = i })

  -- One round of the loop of `watchServers`.
  unfoldable pub discover : Reply → Client → Option Client
  discover failed c = some c
  discover (listed [] i) c = some c
  discover (listed (e ∷ es) i) c =
      with_index i (do_once e (record c { servers = map address_of (e ∷ es) }))

-- `rpc`: the server that is called; `none` is an index out of range.
unfoldable pub rpc : Client → Option Address × Client
rpc c =
    let i = (c.server_index + 1) % 18_446_744_073_709_551_616 in
    (get_elem? c.servers (i % length c.servers), record c { server_index = i })

-- What happens to a client, in any order.
pub data Step : Type 0 where
  replies : Reply → Step
  calls : Step

abbrev pub cons_address : Address → Option (Client × List Address) → Option (Client × List Address)
cons_address a none = none
cons_address a (some (c, rest)) = some (c, a ∷ rest)

module _ (parse_ip : Text → Text) where
  -- A run, with the servers that were called. A call waits until the channel is closed; `none` is a
  -- panic.
  unfoldable pub run : Client → List Step → Option (Client × List Address)
  unfolding discover rpc
  run c [] = some (c, [])
  run c (replies r ∷ ss) = elim (discover parse_ip r c) [ none ↦ none | some d ↦ run d ss ]
  run c (calls ∷ ss) =
      let waits = run c ss in
      let called = run (rpc c).1 ss in
      if c.ready then (elim (rpc c).0 [ none ↦ none | some a ↦ cons_address a called ]) else waits

-- The datacenter of the first reply that is not empty.
abbrev pub first_datacenter : List Step → Text
first_datacenter [] = []
first_datacenter (replies (listed (e ∷ es) i) ∷ ss) = e.datacenter
first_datacenter (replies (listed [] i) ∷ ss) = first_datacenter ss
first_datacenter (replies failed ∷ ss) = first_datacenter ss
first_datacenter (calls ∷ ss) = first_datacenter ss
