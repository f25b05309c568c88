-- ===== src/Consul/Client/Sound.antt =====
-- Every run of the client of consul/consul.go is sound.
use native.Mathlib.Nat.{mod-lt}
use consul_timeline.Common.{
  ℕ, zero, suc, ◌+◌, ◌%◌, ◌≤◌, ◌<◌, ◌≡◌, refl, ap, ◌∙◌, Bool, true, false, Option, none, some, List,
  [], ◌∷◌, if◌then◌else◌, length, map, get_elem?, arith,
}
use consul_timeline.Common.Text.{Text}
use consul_timeline.Consul.Client.{
  Entry, Address, Client, new_client, listed, failed, address_of, discover, rpc, Step, replies,
  calls, cons_address, run, first_datacenter, with_index,
}

-- A client that knows a server if it is ready, and no datacenter before.
pub record IsSound (c : Client) : Type 0 where
  pub same : c.once ≡ c.ready
  pub known : c.ready ≡ true → 1 ≤ length c.servers
  pub unset : c.ready ≡ false → c.dc ≡ []

get_elem?-some :
    {A : Type 0} (xs : List A) (i : ℕ) → i < length xs → (x : A) × (get_elem? xs i ≡ some x)
get_elem?-some [] i h = absurd (omega arith)
get_elem?-some (x ∷ xs) zero h = (x, refl)
get_elem?-some (x ∷ xs) (suc i) h = get_elem?-some xs i (omega arith)

-- A ready client finds a server for every call.
rpc-some : (c : Client) → IsSound c → c.ready ≡ true → (a : Address) × ((rpc c).0 ≡ some a)
unfolding rpc
rpc-some c s r =
    let i : ℕ = (c.server_index + 1) % 18_446_744_073_709_551_616 in
    get_elem?-some c.servers (i % length c.servers) (mod-lt i {m = length c.servers} (s.known r))

-- A reply that lists a server makes the client ready.
discover-IsSound :
    (parse_ip : Text → Text) (e : Entry) (es : List Entry) (i : ℕ) (c : Client)
    → IsSound c
    → (d : Client) × ((discover parse_ip (listed (e ∷ es) i) c ≡ some d)
        × (IsSound d × ((d.ready ≡ true) × (d.dc ≡ (if c.ready then c.dc else e.datacenter)))))
unfolding discover
discover-IsSound parse_ip e es i c s =
    (after c.ready, (opened c.once c.ready s.same, sound c.ready refl))
  where
    servers : List Address
    servers = map (address_of parse_ip) (e ∷ es)

    after : Bool → Client
    after r =
        if r
        then record c { servers = servers; index = i }
        else record c { servers = servers; dc = e.datacenter; once = true; ready = true; index = i }

    opened :
        (o r : Bool)
        → o ≡ r
        → with_index parse_ip i (
            if o
            then some (record c { servers = servers })
            else if r
            then none
            else some
                (record c { servers = servers; dc = e.datacenter; once = true; ready = true }))
          ≡ some (after r)
    opened true true p = refl
    opened false false p = refl
    opened true false p = absurd (cc)
    opened false true p = absurd (cc)

    sound :
        (r : Bool)
        → c.ready ≡ r
        → IsSound (after r)
          × (((after r).ready ≡ true) × ((after r).dc ≡ (if r then c.dc else e.datacenter)))
    sound true p = (record { same = s.same; known = λ _. omega arith; unset = s.unset }, (p, refl))
    sound false p =
        (record { same = refl; known = λ _. omega arith; unset = λ k. absurd (cc) }, (refl, refl))

-- How a run from a sound client ends.
abbrev EndsWell : (Text → Text) → List Step → Client → Type 0
EndsWell parse_ip ss c =
    (d : Client) × ((called : List Address) × ((run parse_ip c ss ≡ some (d, called))
        × (IsSound d × (d.dc ≡ (if c.ready then c.dc else first_datacenter ss)))))

run-EndsWell :
    (parse_ip : Text → Text) (ss : List Step) (c : Client) → IsSound c → EndsWell parse_ip ss c
unfolding run discover
run-EndsWell parse_ip [] c s = (c, ([], (refl, (s, own c.ready refl))))
  where
    own : (r : Bool) → c.ready ≡ r → c.dc ≡ (if r then c.dc else [])
    own true p = refl
    own false p = s.unset p
run-EndsWell parse_ip (replies failed ∷ ss) c s = run-EndsWell parse_ip ss c s
run-EndsWell parse_ip (replies (listed [] i) ∷ ss) c s = run-EndsWell parse_ip ss c s
run-EndsWell parse_ip (replies (listed (e ∷ es) i) ∷ ss) c s =
    let (d, (p, (t, (r, q)))) = discover-IsSound parse_ip e es i c s in
    let (f, (called, (h, (u, k)))) = run-EndsWell parse_ip ss d t in
    (
      f,
      (
        called,
        (ap (λ o. next o) p ∙ h, (u, k ∙ ap (λ b. if b then d.dc else first_datacenter ss) r ∙ q)),
      ),
    )
  where
    next : Option Client → Option (Client × List Address)
    next none = none
    next (some d) = run parse_ip d ss
run-EndsWell parse_ip (calls ∷ ss) c s =
    go c.ready refl (run-EndsWell parse_ip ss c s) (run-EndsWell parse_ip ss (rpc c).1 moved)
  where
    moved : IsSound (rpc c).1
    moved = unfold rpc in record { same = s.same; known = s.known; unset = s.unset }

    outcome : Option Address → Option (Client × List Address)
    outcome none = none
    outcome (some a) = cons_address a (run parse_ip (rpc c).1 ss)

    go :
        (r : Bool)
        → c.ready ≡ r
        → EndsWell parse_ip ss c
        → EndsWell parse_ip ss (rpc c).1
        → (d : Client) × ((called : List Address) × (((if r
                  then outcome (rpc c).0
                  else run parse_ip c ss)
                ≡ some (d, called))
              × (IsSound d × (d.dc ≡ (if c.ready then c.dc else first_datacenter ss)))))
    go false p waits goes = waits
    go true p waits (d, (called, (h, (u, k)))) =
        let (a, q) = rpc-some c s p in
        (d, (a ∷ called, (ap (λ o. outcome o) q ∙ ap (cons_address a) h, (u, unfold rpc in k))))

-- Whatever Consul answers and whenever calls are made, the ready channel is closed once at most, every
-- call made after it is closed finds a server, and the datacenter is that of the first reply that
-- lists a server.
pub run-IsSound :
    (parse_ip : Text → Text) (ss : List Step)
    → (c : Client) × ((called : List Address) × ((run parse_ip new_client ss ≡ some (c, called))
          × (IsSound c × (c.dc ≡ first_datacenter ss))))
run-IsSound parse_ip ss =
    run-EndsWell parse_ip ss new_client
      (record { same = refl; known = λ e. absurd (cc); unset = λ e. refl })
