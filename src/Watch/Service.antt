-- ===== src/Watch/Service.antt =====
-- watch/compare.go: two states of one service, compared, and the announcements of its instances.
pub mod Index
pub mod Events
pub mod Marks
use consul_timeline.Common.{
  ℕ, ◌+◌, ◌-◌, ◌≡◌, Bool, true, false, ◌&&◌, not, Option, none, some, List, [], ◌∷◌, ◌++◌, ◌==◌,
  if◌then◌else◌, ltb, nat_beq, length,
}
use consul_timeline.Common.Text.{Text, text_eq}
use consul_timeline.Common.Int.{ℤ}
use consul_timeline.Common.Assoc.{lookup, insert, delete, RangeOrder}
use consul_timeline.Timeline.Status.{
  Status, ConsulApi, status_missing, status_passing, kind_check, kind_instance,
}
use consul_timeline.Timeline.Event.{Event, Instance, Time, empty_event, int_beq}
use consul_timeline.Timeline.Derive.{Derive, apply}
use consul_timeline.Consul.{Node, NodeService, HealthCheck, CheckServiceNode, Registration}
use consul_timeline.Watch.Health.{instance_status, service_checks}
use consul_timeline.Watch.Compare.{
  InstanceKey, InstanceMark, key_eq, key_of, Instances, compare_checks,
}
use consul_timeline.Watch.Fingerprint.{fingerprint}

-- What the watcher knows by itself: how to derive columns, and its datacenter.
pub record Watcher : Type 0 where
  pub derive : Derive
  pub datacenter : Text

-- What the watcher has put on its two channels, and the marks of the service at hand.
pub record Sink : Type 0 where
  pub events : List Event
  pub instances : List Instance
  pub marks : List (InstanceKey × InstanceMark)

abbrev pub emit : Sink → Event → Sink
emit s e = record s { events = s.events ++ (e ∷ []) }

-- A run of calls of `emit`.
abbrev pub emit_all : Sink → List Event → Sink
emit_all s es = record s { events = s.events ++ es }

-- `instanceRefresh`, 24 hours in nanoseconds.
abbrev pub instance_refresh : ℕ
instance_refresh = 86_400_000_000_000

-- The two pointers, unless one is `nil`.
unfoldable pub registration : CheckServiceNode → Option Registration
registration c = elim c.node [
  | none ↦ none
  | some n ↦ elim c.service [
    | none ↦ none
    | some s ↦ some (record { node = n; service = s; checks = c.checks })
  ]
]

-- The two results of `indexInstances`: the map, and how many instances are healthy.
unfoldable pub index_instances : Instances → List CheckServiceNode → Instances
unfolding registration insert
index_instances m [] = m
index_instances m (c ∷ cs) = elim (registration c) [
  | none ↦ index_instances m cs
  | some r ↦ index_instances (insert (key_of r) r m) cs
]

abbrev pub is_healthy : ConsulApi → Registration → Bool
is_healthy api r = int_beq (instance_status api r.checks) status_passing

unfoldable pub count_healthy : ConsulApi → List CheckServiceNode → ℕ
unfolding registration instance_status
count_healthy api [] = 0
count_healthy api (c ∷ cs) = elim (registration c) [
  | none ↦ count_healthy api cs
  | some r ↦ (if is_healthy api r then 1 else 0) + count_healthy api cs
]

module _ (w : Watcher) where
  -- The record that `announce` sends.
  abbrev pub announced_instance : Time → Registration → Instance
  announced_instance at r =
      let (t, a, v) = apply w.derive r.service.meta in
      record {
        datacenter = w.datacenter;
        node_name = r.node.node;
        service_id = r.service.id;
        service_name = r.service.service;
        node_ip = r.node.address;
        address = r.service.address;
        port = r.service.port;
        team = t;
        app = a;
        version = v;
        tags = r.service.tags;
        meta = r.service.meta;
        node_meta = r.node.meta;
        first_seen = at;
        last_seen = at;
      }

  -- Whether the mark of an instance makes `announce` return early.
  abbrev pub is_fresh : Time → ℕ → Option InstanceMark → Bool
  is_fresh at print none = false
  is_fresh at print (some m) =
      nat_beq m.fingerprint print && ltb (at - m.announced) instance_refresh

  abbrev pub renew : Time → Registration → Sink → Sink
  renew at r s = record s {
    instances = s.instances ++ (announced_instance at r ∷ []);
    marks = insert (key_of r) (record { fingerprint = fingerprint r; announced = at }) s.marks;
  }

  -- `announce`.
  unfoldable pub announce : Time → Registration → Bool → Sink → Sink
  unfolding insert lookup
  announce at r force s =
      if not force && is_fresh at (fingerprint r) (lookup (key_of r) s.marks)
      then s
      else renew at r s

  -- The closure `base` of `compareService`.
  abbrev pub service_event : Time → ℕ → ℕ → ℕ → ℕ → Registration → Event
  service_event at index old_healthy new_healthy total r =
      let (t, a, v) = apply w.derive r.service.meta in
      record empty_event {
        time = at;
        datacenter = w.datacenter;
        consul_index = index;
        node_name = r.node.node;
        node_ip = r.node.address;
        service_name = r.service.service;
        service_id = r.service.id;
        team = t;
        app = a;
        version = v;
        tags = r.service.tags;
        old_healthy = old_healthy;
        new_healthy = new_healthy;
        total_instances = total;
      }

-- The parameters of one comparison: the time, the index, and the two counts and the total that
-- every event of it carries.
pub record Round : Type 0 where
  pub at : Time
  pub index : ℕ
  pub old_healthy : ℕ
  pub new_healthy : ℕ
  pub total : ℕ

module _ (api : ConsulApi) (order : RangeOrder Text HealthCheck) (w : Watcher) (t : Round) where
  abbrev pub base_event : Registration → Event
  base_event = service_event w t.at t.index t.old_healthy t.new_healthy t.total

  -- The event of an instance that came or went.
  abbrev pub instance_event : Registration → Status → Status → Event
  instance_event r old new = record (base_event r) {
    kind = kind_instance;
    old_service_status = old;
    new_service_status = new;
  }

  -- The `decorate` that `compareService` passes to `compareChecks`.
  abbrev pub decorate_check : Registration → Registration → Event → Event
  decorate_check old new e = record e {
    old_service_status = instance_status api old.checks;
    new_service_status = instance_status api new.checks;
  }

  -- What an instance that stays has to report of its own checks.
  abbrev pub stayed_events : Registration → Registration → List Event
  stayed_events old new =
      compare_checks api order (base_event new) kind_check (decorate_check old new)
        (service_checks old.checks) (service_checks new.checks)

  -- The body of the first loop, given what the old map holds.
  abbrev pub visit_current : Registration → Option Registration → Sink → Sink
  visit_current ns none s =
      announce w t.at ns true
        (emit s (instance_event ns status_missing (instance_status api ns.checks)))
  visit_current ns (some os) s = emit_all (announce w t.at ns false s) (stayed_events os ns)

  -- The body of the second loop, given what the new map holds.
  abbrev pub visit_gone : InstanceKey → Registration → Option Registration → Sink → Sink
  visit_gone key os (some ns) s = s
  visit_gone key os none s =
      record (emit s (instance_event os (instance_status api os.checks) status_missing)) {
        marks = delete key s.marks;
      }

  unfoldable pub current_loop : Instances → Instances → Sink → Sink
  unfolding lookup announce
  current_loop old [] s = s
  current_loop old ((key, ns) ∷ m) s = current_loop old m (visit_current ns (lookup key old) s)

  unfoldable pub gone_loop : Instances → Instances → Sink → Sink
  unfolding lookup delete
  gone_loop new [] s = s
  gone_loop new ((key, os) ∷ m) s = gone_loop new m (visit_gone key os (lookup key new) s)

module _ (api : ConsulApi) (order : RangeOrder Text HealthCheck)
    (instance_order : RangeOrder InstanceKey Registration) (w : Watcher) where
  abbrev pub round_of : Time → ℕ → List CheckServiceNode → List CheckServiceNode → Round
  round_of at index old new = record {
    at = at;
    index = index;
    old_healthy = count_healthy api old;
    new_healthy = count_healthy api new;
    total = length new;
  }

  -- `compareService`.
  unfoldable pub compare_service :
      Time → ℕ → List CheckServiceNode → List CheckServiceNode → Sink → Sink
  unfolding index_instances count_healthy current_loop gone_loop
  compare_service at index old new s =
      let t : Round = round_of at index old new in
      let old_index : Instances = index_instances [] old in
      let new_index : Instances = index_instances [] new in
      gone_loop api order w t new_index (instance_order.range old_index)
        (current_loop api order w t old_index (instance_order.range new_index) s)
