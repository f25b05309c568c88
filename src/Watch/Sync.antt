-- ===== src/Watch/Sync.antt =====
-- watch/watch.go: `syncServices` and `syncNodes`, which start and stop the watches of one list.
pub mod Starts
use consul_timeline.Common.{
  ℕ, ◌+◌, ◌≡◌, refl, sym, ap, ◌∙◌, append-nil, append_assoc, Bool, true, false, ◌&&◌, ◌||◌, not,
  List, [], ◌∷◌, ◌++◌, ◌==◌, if◌then◌else◌, if_ind, keep, length, map, arith, Bool-cases, inl, inr,
  length-append,
}
use consul_timeline.Common.Text.{Text, text_eq, text_beq, text_beq_iff}
use consul_timeline.Common.Assoc.{insert, delete}
use consul_timeline.Timeline.Status.{kind_node, status_missing, status_unknown}
use consul_timeline.Timeline.Event.{Event, Time, empty_event}
use consul_timeline.Consul.{Node}

-- Whether a map has a key, by its keys.
unfoldable pub has : List Text → Text → Bool
unfolding text_beq
has [] name = false
has (n ∷ ns) name = if n == name then true else has ns name

-- The keys of `w.services`, the watches started and the watches stopped.
pub record Services : Type 0 where
  pub names : List Text
  pub started : List Text
  pub stopped : List Text

-- The first loop of `syncServices`, over the keys of the reply in some order; the second result is
-- `added`.
unfoldable pub start_services : List Text → Services → ℕ → Services × ℕ
unfolding has
start_services [] s added = (s, added)
start_services (n ∷ ns) s added =
    let known = start_services ns s added in
    let unknown =
      start_services ns (record s { names = s.names ++ (n ∷ []); started = s.started ++ (n ∷ []) })
        (added + 1) in
    if has s.names n then known else unknown

-- The second loop: the watches of services that left are stopped and forgotten.
unfoldable pub stop_services : List Text → Services → Services
unfolding has
stop_services listed s = record s {
  names = keep (λ n. has listed n) s.names;
  stopped = s.stopped ++ keep (λ n. not (has listed n)) s.names;
}

-- `syncServices`; the second result is what it passes to `listArrived` if it is the initial call.
unfoldable pub sync_services : List Text → Services → Services × ℕ
unfolding start_services stop_services
sync_services listed s =
    let (t, added) = start_services listed s 0 in (stop_services listed t, added)

-- `w.nodes`, `w.nodeIPs`, the watches started and stopped, and the events emitted.
pub record Nodes : Type 0 where
  pub names : List Text
  pub ips : List (Text × Text)
  pub started : List Node
  pub stopped : List Text
  pub events : List Event

abbrev pub new_node_event : Text → Time → ℕ → Node → Event
new_node_event dc at index n = record empty_event {
  time = at;
  datacenter = dc;
  kind = kind_node;
  consul_index = index;
  node_name = n.node;
  node_ip = n.address;
  old_node_status = status_missing;
  new_node_status = status_unknown;
}

-- What the first loop of `syncNodes` does with a node that has no watch.
abbrev pub start_node : Text → Time → ℕ → Bool → Node → Nodes → Nodes
start_node dc at index initial n s = record s {
  names = s.names ++ (n.node ∷ []);
  started = s.started ++ (n ∷ []);
  events = if initial then s.events else s.events ++ (new_node_event dc at index n ∷ []);
}

abbrev pub set_ip : Node → Nodes → Nodes
set_ip n s = record s { ips = insert n.node n.address s.ips }

unfoldable pub start_nodes : Text → Time → ℕ → Bool → List Node → Nodes → ℕ → Nodes × ℕ
unfolding has insert
start_nodes dc at index initial [] s added = (s, added)
start_nodes dc at index initial (n ∷ ns) s added =
    let known = start_nodes dc at index initial ns (set_ip n s) added in
    let unknown =
      start_nodes dc at index initial ns (start_node dc at index initial n (set_ip n s))
        (added + 1) in
    if has s.names n.node then known else unknown

abbrev pub delete_all : List Text → List (Text × Text) → List (Text × Text)
delete_all [] m = m
delete_all (n ∷ ns) m = delete_all ns (delete n m)

abbrev pub node_names : List Node → List Text
node_names = map (λ n. n.node)

-- The second loop of `syncNodes`.
unfoldable pub stop_nodes : List Text → Nodes → Nodes
unfolding has delete
stop_nodes present s =
    let gone : List Text = keep (λ n. not (has present n)) s.names in
    record s {
      names = keep (λ n. has present n) s.names;
      ips = delete_all gone s.ips;
      stopped = s.stopped ++ gone;
    }

-- `syncNodes`.
unfoldable pub sync_nodes : Text → Time → ℕ → Bool → List Node → Nodes → Nodes × ℕ
unfolding start_nodes stop_nodes
sync_nodes dc at index initial nodes s =
    let (t, added) = start_nodes dc at index initial nodes s 0 in
    (stop_nodes (node_names nodes) t, added)

pub has-append :
    (ns ms : List Text) (name : Text) → has (ns ++ ms) name ≡ (has ns name || has ms name)
unfolding has
has-append [] ms name = refl
has-append (n ∷ ns) ms name = ground (arith, has-append ns ms name)

has-keep :
    (p : Text → Bool) (ns : List Text) (name : Text)
    → has (keep p ns) name ≡ (has ns name && p name)
unfolding has
has-keep p [] name = refl
has-keep p (n ∷ ns) name = elim (Bool-cases (text_beq n name)) [
  | inl e ↦ ground (arith, e, has-keep p ns name, ap p ((text_beq_iff n name).0 e))
  | inr e ↦ ground (arith, e, has-keep p ns name)
]

has-start_services :
    (ns : List Text) (s : Services) (added : ℕ) (name : Text)
    → has (start_services ns s added).0.names name ≡ (has s.names name || has ns name)
unfolding start_services has
has-start_services [] s added name = ground arith
has-start_services (n ∷ ns) s added name =
    let t : Services = record s { names = s.names ++ (n ∷ []); started = s.started ++ (n ∷ []) } in
    elim (Bool-cases (text_beq n name)) [
      | inl e ↦
          let p : n ≡ name = (text_beq_iff n name).0 e in
          ground (
            arith,
            e,
            ap (has s.names) p,
            has-start_services ns s added name,
            has-start_services ns t (added + 1) name,
            has-append s.names (n ∷ []) name,
          )
      | inr e ↦ ground (
        arith,
        e,
        has-start_services ns s added name,
        has-start_services ns t (added + 1) name,
        has-append s.names (n ∷ []) name,
      )
    ]

-- After a service list has been taken in, exactly the listed services have a watch.
pub has-sync_services :
    (listed : List Text) (s : Services) (name : Text)
    → has (sync_services listed s).0.names name ≡ has listed name
unfolding sync_services stop_services
has-sync_services listed s name = ground (
  arith,
  has-keep (has listed) (start_services listed s 0).0.names name,
  has-start_services listed s 0 name,
)

length-started :
    (ns : List Text) (s : Services) (added : ℕ)
    → (start_services ns s added).1 + length s.started
      ≡ added + length (start_services ns s added).0.started
unfolding start_services
length-started [] s added = refl
length-started (n ∷ ns) s added =
    let t : Services = record s { names = s.names ++ (n ∷ []); started = s.started ++ (n ∷ []) } in
    if_ind (λ p. p.1 + length s.started ≡ added + length p.0.started) (has s.names n)
      (start_services ns s added) (start_services ns t (added + 1)) (λ _. length-started ns s added)
      (λ _. omega (arith, length-started ns t (added + 1), length-append s.started (n ∷ [])))

-- What the initial call announces to the readiness count is the number of watches it has started,
-- each of which is to report once.
pub sync_services-added :
    (listed : List Text) (s : Services)
    → (sync_services listed s).1 + length s.started ≡ length (sync_services listed s).0.started
unfolding sync_services stop_services
sync_services-added listed s = omega (arith, length-started listed s 0)

has-start_nodes :
    (dc : Text) (at : Time) (index : ℕ) (initial : Bool) (ns : List Node) (s : Nodes) (added : ℕ)
    (name : Text)
    → has (start_nodes dc at index initial ns s added).0.names name
      ≡ (has s.names name || has (node_names ns) name)
unfolding start_nodes has
has-start_nodes dc at index initial [] s added name = ground arith
has-start_nodes dc at index initial (n ∷ ns) s added name =
    let t : Nodes = start_node dc at index initial n (set_ip n s) in
    if_ind
      (λ (p : Nodes × ℕ). has p.0.names name ≡ (has s.names name || has (node_names (n ∷ ns)) name))
      (has s.names n.node) _ _
      (λ k. has-start_nodes dc at index initial ns (set_ip n s) added name ∙ known k)
      (λ k.
        has-start_nodes dc at index initial ns t (added + 1) name
        ∙ ground (arith, has-append s.names (n.node ∷ []) name))
  where
    known :
        has s.names n.node ≡ true
        → (has s.names name || has (node_names ns) name)
          ≡ (has s.names name || has (node_names (n ∷ ns)) name)
    known k = elim (Bool-cases (text_beq n.node name)) [
      | inl e ↦ ground (arith, k, e, ap (has s.names) ((text_beq_iff n.node name).0 e))
      | inr e ↦ ground (arith, e)
    ]

-- After a node list has been taken in, exactly the listed nodes have a watch.
pub has-sync_nodes :
    (dc : Text) (at : Time) (index : ℕ) (initial : Bool) (nodes : List Node) (s : Nodes)
    (name : Text)
    → has (sync_nodes dc at index initial nodes s).0.names name ≡ has (node_names nodes) name
unfolding sync_nodes stop_nodes
has-sync_nodes dc at index initial nodes s name = ground (
  arith,
  has-keep (has (node_names nodes)) (start_nodes dc at index initial nodes s 0).0.names name,
  has-start_nodes dc at index initial nodes s 0 name,
)
