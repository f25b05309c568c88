-- ===== src/Watch/Compare.antt =====
-- watch/compare.go: two states of the checks of an instance or a node, compared.
pub mod Checks
use consul_timeline.Common.{
  ℕ, ◌-◌, ◌≡◌, Bool, true, false, ◌&&◌, not, Option, none, some, List, [], ◌∷◌, ◌++◌, ◌==◌,
  if◌then◌else◌, ltb, nat_beq, length, Eq, ◌↔◌, arith,
}
use consul_timeline.Common.Text.{Text, text_eq, text_beq, text_beq_iff}
use consul_timeline.Common.Int.{ℤ}
use consul_timeline.Common.Assoc.{lookup, insert, delete, for_each, RangeOrder}
use consul_timeline.Timeline.Status.{
  Status, Kind, ConsulApi, status_unknown, status_missing, status_passing, status_from_consul,
  kind_check, kind_instance, kind_node,
}
use consul_timeline.Timeline.Event.{Event, Instance, Time, empty_event, int_beq}
use consul_timeline.Timeline.Derive.{Derive, apply}
use consul_timeline.Consul.{Node, NodeService, HealthCheck, CheckServiceNode, Registration}
use consul_timeline.Watch.Health.{instance_status, node_status, service_checks}

-- `instanceKey`.
pub record InstanceKey : Type 0 where
  pub node : Text
  pub id : Text

abbrev pub key_beq : InstanceKey → InstanceKey → Bool
key_beq a b = text_beq a.node b.node && text_beq a.id b.id

pub key_beq_iff : (a b : InstanceKey) → (key_beq a b ≡ true) ↔ (a ≡ b)
key_beq_iff a b = ground (arith, text_beq_iff a.node b.node, text_beq_iff a.id b.id)

instance abbrev pub key_eq : Eq InstanceKey
key_eq = record { beq = key_beq; beq_iff = key_beq_iff }

-- `instanceMark`.
pub record InstanceMark : Type 0 where
  pub fingerprint : ℕ
  pub announced : Time

abbrev pub key_of : Registration → InstanceKey
key_of r = record { node = r.node.node; id = r.service.id }

abbrev pub Checks : Type 0
Checks = List (Text × HealthCheck)

abbrev pub Instances : Type 0
Instances = List (InstanceKey × Registration)

-- The map by `CheckID` that `compareChecks` builds: a later check replaces an earlier one.
unfoldable pub index_checks : Checks → List HealthCheck → Checks
unfolding insert
index_checks m [] = m
index_checks m (c ∷ cs) = index_checks (insert c.check_id c m) cs

-- The closure `emit` of `compareChecks`.
abbrev pub check_event : Event → Kind → (Event → Event) → HealthCheck → Status → Status → Event
check_event base kind decorate c old new = decorate (record base {
  kind = kind;
  check_id = c.check_id;
  check_name = c.name;
  check_type = c.type;
  check_output = c.output;
  old_check_status = old;
  new_check_status = new;
})

module _ (api : ConsulApi) where
  -- What `compareChecks` emits for a check of the new list, given what the old map holds.
  abbrev pub current_check :
      Event → Kind → (Event → Event) → HealthCheck → Option HealthCheck → List Event
  current_check base kind decorate nc none =
      check_event base kind decorate nc status_missing (status_from_consul api nc.status) ∷ []
  current_check base kind decorate nc (some oc) =
      if oc.status == nc.status
      then []
      else check_event base kind decorate nc (status_from_consul api oc.status)
          (status_from_consul api nc.status)
        ∷ []

  -- And for a check of the old list, given what the new map holds.
  abbrev pub gone_check :
      Event → Kind → (Event → Event) → HealthCheck → Option HealthCheck → List Event
  gone_check base kind decorate oc (some nc) = []
  gone_check base kind decorate oc none =
      check_event base kind decorate (record oc { output = [] }) (status_from_consul api oc.status)
        status_missing
      ∷ []

module _ (api : ConsulApi) (order : RangeOrder Text HealthCheck) where
  -- `compareChecks`: the events in the order of emission. `decorate` is the identity for `nil`.
  unfoldable pub compare_checks :
      Event → Kind → (Event → Event) → List HealthCheck → List HealthCheck → List Event
  unfolding index_checks for_each lookup
  compare_checks base kind decorate old new =
      let old_index : Checks = index_checks [] old in
      let new_index : Checks = index_checks [] new in
      for_each (λ id nc. current_check api base kind decorate nc (lookup id old_index))
        (order.range new_index)
      ++ for_each (λ id oc. gone_check api base kind decorate oc (lookup id new_index))
          (order.range old_index)

  abbrev undecorated : Event → Event
  undecorated e = e

  -- The variable `base` of `compareNode`.
  abbrev pub node_event : Text → Time → ℕ → Node → List HealthCheck → List HealthCheck → Event
  node_event dc at index node old new = record empty_event {
    time = at;
    datacenter = dc;
    consul_index = index;
    kind = kind_node;
    node_name = node.node;
    node_ip = node.address;
    old_node_status = node_status api old;
    new_node_status = node_status api new;
  }

  -- `compareNode`, for the datacenter that the watcher is in. A `nil` new state is `none`.
  unfoldable pub compare_node :
      Text → Time → ℕ → Node → List HealthCheck → Option (List HealthCheck) → List Event
  unfolding compare_checks
  compare_node dc at index node old new = elim new [
    | none ↦ node_event dc at index node old [] ∷ []
    | some checks ↦
        compare_checks (node_event dc at index node old checks) kind_node undecorated old checks
  ]
