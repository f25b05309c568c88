-- ===== src/Watch/Loop.antt =====
-- watch/watch.go: `watchService` and `watchNode`, the loops that follow one service or one node.
pub mod Reports
use consul_timeline.Common.{
  ℕ, ◌+◌, ◌≡◌, refl, sym, ap, ◌∙◌, Bool, true, false, ◌&&◌, not, Option, none, some, List, [], ◌∷◌,
  ◌++◌, if◌then◌else◌, if_ind, ltb, nat_beq, arith, append-nil, subst, All, All-append, Bool-cases,
  inl, inr,
}
use consul_timeline.Common.Text.{Text, text_eq}
use consul_timeline.Common.Assoc.{RangeOrder, with_key}
use consul_timeline.Timeline.Status.{ConsulApi, kind_node}
use consul_timeline.Timeline.Event.{Event, Time}
use consul_timeline.Consul.{Node, HealthCheck, CheckServiceNode, Registration}
use consul_timeline.Watch.Health.{node_checks}
use consul_timeline.Watch.Compare.{InstanceKey, key_eq, compare_node, node_event}
use consul_timeline.Watch.Compare.Checks.{All-compare_checks}
use consul_timeline.Watch.Service.{Watcher, Sink, registration, announce, compare_service, round_of}
use consul_timeline.Watch.Service.Index.{last_instance}
use consul_timeline.Watch.Service.Events.{event_key, instance_change, with_key-compare_service}

-- `nextIndex`: an index that went back starts over.
unfoldable pub next_index : ℕ → ℕ → ℕ
next_index prev got = if ltb got prev then 0 else got

-- What a round of a loop meets: the stop or the end of the context at its head, a fetch that fails
-- (and whether `sleep` says to go on), or a reply with its time and index.
pub data Turn (R : Type 0) : Type 0 where
  stops : Time → Turn R
  ends : Turn R
  fails : Bool → Turn R
  replies : Time → ℕ → R → Turn R

-- Whether a fetch succeeds before the loop ends: by the stop, the end of the context, or a `sleep`
-- after a failed fetch that says so.
abbrev pub has_reply : {R : Type 0} → List (Turn R) → Bool
has_reply [] = false
has_reply (stops at ∷ ts) = false
has_reply (ends ∷ ts) = false
has_reply (fails goes_on ∷ ts) = goes_on && has_reply ts
has_reply (replies at index r ∷ ts) = true

-- The variables of `watchService`; `reported` counts its calls of `childReady`, and `running` is
-- false once it has returned.
pub record ServiceWatch : Type 0 where
  pub index : ℕ
  pub last : List CheckServiceNode
  pub first : Bool
  pub reported : ℕ
  pub running : Bool
  pub sink : Sink

-- And those of `watchNode`, with what it has emitted.
pub record NodeWatch : Type 0 where
  pub index : ℕ
  pub last : List HealthCheck
  pub first : Bool
  pub reported : ℕ
  pub running : Bool
  pub events : List Event

abbrev pub report : Bool → ℕ → ℕ
report count_ready n = if count_ready then n + 1 else n

-- A loop that announces each entry. An entry with no node or no service is dereferenced, which
-- panics: `none`.
unfoldable pub announce_all : Watcher → Time → Bool → List CheckServiceNode → Sink → Option Sink
unfolding registration announce
announce_all w at force [] s = some s
announce_all w at force (c ∷ cs) s = elim (registration c) [
  | none ↦ none
  | some r ↦ announce_all w at force cs (announce w at r force s)
]

abbrev pub with_sink : ServiceWatch → Option Sink → Option ServiceWatch
with_sink s none = none
with_sink s (some k) = some (record s { sink = k })

module _ (api : ConsulApi) (order : RangeOrder Text HealthCheck)
    (instance_order : RangeOrder InstanceKey Registration) (w : Watcher) (count_ready : Bool) where
  -- What a successful fetch of a service sends: the first one announces every instance, a new index
  -- is a change, and the same index a fetch that waited in vain, which refreshes announcements.
  abbrev pub service_sink : ServiceWatch → Time → ℕ → List CheckServiceNode → Option Sink
  service_sink s at index nodes =
      if s.first
      then announce_all w at true nodes s.sink
      else if nat_beq index s.index
      then announce_all w at false nodes s.sink
      else some (compare_service api order instance_order w at index s.last nodes s.sink)

  -- And the variables that it leaves.
  abbrev pub after_reply : ServiceWatch → ℕ → List CheckServiceNode → ServiceWatch
  after_reply s index nodes = record s {
    last = nodes;
    index = next_index s.index index;
    first = false;
    reported = if s.first then report count_ready s.reported else s.reported;
  }

  -- What the stop does: what was still known is gone.
  abbrev pub service_stop : Time → List CheckServiceNode → ℕ → Sink → Sink
  service_stop at [] index s = s
  service_stop at (c ∷ cs) index s =
      compare_service api order instance_order w at index (c ∷ cs) [] s

  -- One round of `watchService`.
  unfoldable pub service_round : ServiceWatch → Turn (List CheckServiceNode) → Option ServiceWatch
  unfolding announce_all next_index compare_service
  service_round s (stops at) =
      some (record s { running = false; sink = service_stop at s.last s.index s.sink })
  service_round s ends = some (record s { running = false })
  service_round s (fails goes_on) = some (record s { running = goes_on })
  service_round s (replies at index nodes) =
      with_sink (after_reply s index nodes) (service_sink s at index nodes)

  -- `watchService`, from a state on.
  unfoldable pub watch_service :
      ServiceWatch → List (Turn (List CheckServiceNode)) → Option ServiceWatch
  unfolding service_round
  watch_service s [] = some s
  watch_service s (t ∷ ts) =
      if s.running
      then elim (service_round s t) [ none ↦ none | some u ↦ watch_service u ts ]
      else some s

module _ (api : ConsulApi) (order : RangeOrder Text HealthCheck) (dc : Text) (node : Node)
    (count_ready : Bool) where
  -- What a successful fetch of a node emits: nothing at first, nor with the same index.
  abbrev pub node_events : NodeWatch → Time → ℕ → List HealthCheck → List Event
  node_events s at index checks =
      if s.first
      then []
      else if nat_beq index s.index
      then []
      else compare_node api order dc at index node s.last (some checks)

  -- One round of `watchNode`.
  unfoldable pub node_round : NodeWatch → Turn (List HealthCheck) → NodeWatch
  unfolding next_index compare_node node_checks
  node_round s (stops at) = record s {
    running = false;
    events = s.events ++ compare_node api order dc at s.index node s.last none;
  }
  node_round s ends = record s { running = false }
  node_round s (fails goes_on) = record s { running = goes_on }
  node_round s (replies at index checks) = record s {
    last = node_checks checks;
    index = next_index s.index index;
    first = false;
    reported = if s.first then report count_ready s.reported else s.reported;
    events = s.events ++ node_events s at index (node_checks checks);
  }

  -- `watchNode`, from a state on.
  unfoldable pub watch_node : NodeWatch → List (Turn (List HealthCheck)) → NodeWatch
  unfolding node_round
  watch_node s [] = s
  watch_node s (t ∷ ts) = let rest = watch_node (node_round s t) ts in if s.running then rest else s

  -- Every emitted event is about this node, in this datacenter, and so says its kind.
  abbrev pub IsAboutNode : Event → Type 0
  IsAboutNode e = (e.node_name ≡ node.node) × (e.datacenter ≡ dc) × (e.kind ≡ kind_node)

  compare_node-IsAboutNode :
      (at : Time) (index : ℕ) (old : List HealthCheck) (new : Option (List HealthCheck))
      → All IsAboutNode (compare_node api order dc at index node old new)
  unfolding compare_node
  compare_node-IsAboutNode at index old none = ((refl, refl, refl), tt)
  compare_node-IsAboutNode at index old (some new) =
      All-compare_checks api order (node_event api order dc at index node old new) kind_node
        (λ e. e) IsAboutNode (λ c o n. (refl, refl, refl)) old new

  node_round-IsAboutNode :
      (s : NodeWatch) (t : Turn (List HealthCheck))
      → All IsAboutNode s.events
      → All IsAboutNode (node_round s t).events
  unfolding node_round
  node_round-IsAboutNode s (stops at) h =
      All-append IsAboutNode s.events _ h (compare_node-IsAboutNode at s.index s.last none)
  node_round-IsAboutNode s ends h = h
  node_round-IsAboutNode s (fails goes_on) h = h
  node_round-IsAboutNode s (replies at index checks) h = All-append IsAboutNode s.events _ h (
      if_ind (All IsAboutNode) s.first [] _ (λ _. tt)
        (λ _.
          if_ind (All IsAboutNode) (nat_beq index s.index) [] _ (λ _. tt)
            (λ _. compare_node-IsAboutNode at index s.last (some (node_checks checks)))))

  -- Whatever the fetches of a node bring, every event of its watch carries the node's name, the
  -- watcher's datacenter and the kind of a node event, if those from before do.
  pub watch_node-IsAboutNode :
      (s : NodeWatch) (ts : List (Turn (List HealthCheck)))
      → All IsAboutNode s.events
      → All IsAboutNode (watch_node s ts).events
  unfolding watch_node
  watch_node-IsAboutNode s [] h = h
  watch_node-IsAboutNode s (t ∷ ts) h =
      if_ind (λ u. All IsAboutNode u.events) s.running (watch_node (node_round s t) ts) s
        (λ _. watch_node-IsAboutNode (node_round s t) ts (node_round-IsAboutNode s t h)) (λ _. h)
