-- ===== src/Watch/Service/Events.antt =====
-- What `compareService` of watch/compare.go reports of each instance.
use consul_timeline.Common.{
  ◌≡◌, refl, sym, ap, ap₂, ◌∙◌, ℕ, Bool, true, false, Option, none, some, List, [], ◌∷◌, ◌++◌, All,
  inl, inr, Bool-cases, append-nil, append_assoc, ◌&&◌, not,
}
use consul_timeline.Common.Text.{Text, text_eq}
use consul_timeline.Common.Assoc.{
  lookup, for_each, with_key, with_key-append, with_key-for_each, at_key, RangeOrder,
}
use consul_timeline.Timeline.Status.{ConsulApi, status_missing}
use consul_timeline.Timeline.Event.{Event, Time}
use consul_timeline.Consul.{HealthCheck, CheckServiceNode, Registration}
use consul_timeline.Watch.Health.{instance_status, service_checks}
use consul_timeline.Watch.Compare.{InstanceKey, key_eq, key_of, Instances}
use consul_timeline.Watch.Fingerprint.{fingerprint}
use consul_timeline.Watch.Compare.Checks.{All-compare_checks}
use consul_timeline.Watch.Service.{
  Watcher, Sink, Round, announce, is_fresh, index_instances, instance_event, stayed_events,
  visit_current, visit_gone, current_loop, gone_loop, round_of, compare_service, decorate_check,
}
use consul_timeline.Watch.Service.Index.{
  last_instance, lookup-index, index_instances-IsDistinct, key_of-last_instance,
}

-- The instance that an event is about.
abbrev pub event_key : Event → InstanceKey
event_key e = record { node = e.node_name; id = e.service_id }

-- Announcing emits no event.
events-announce :
    (w : Watcher) (at : Time) (r : Registration) (force : Bool) (s : Sink)
    → (announce w at r force s).events ≡ s.events
unfolding announce
events-announce w at r force s =
    elim (Bool-cases (not force && is_fresh w at (fingerprint r) (lookup (key_of r) s.marks))) [
      | inl e ↦ rw e refl
      | inr e ↦ rw e refl
    ]

module _ (api : ConsulApi) (order : RangeOrder Text HealthCheck) (w : Watcher) (t : Round) where
  current_events : Registration → Option Registration → List Event
  current_events ns none =
      instance_event api order w t ns status_missing (instance_status api ns.checks) ∷ []
  current_events ns (some os) = stayed_events api order w t os ns

  gone_events : Registration → Option Registration → List Event
  gone_events os none =
      instance_event api order w t os (instance_status api os.checks) status_missing ∷ []
  gone_events os (some ns) = []

  -- What is to be reported of an instance, given its old and its new registration.
  unfoldable pub instance_change : Option Registration → Option Registration → List Event
  instance_change none none = []
  instance_change none (some ns) =
      instance_event api order w t ns status_missing (instance_status api ns.checks) ∷ []
  instance_change (some os) (some ns) = stayed_events api order w t os ns
  instance_change (some os) none =
      instance_event api order w t os (instance_status api os.checks) status_missing ∷ []

  events-visit_current :
      (ns : Registration) (o : Option Registration) (s : Sink)
      → (visit_current api order w t ns o s).events ≡ s.events ++ current_events ns o
  unfolding current_events
  events-visit_current ns none s = events-announce w t.at ns true _
  events-visit_current ns (some os) s =
      ap (λ l. l ++ stayed_events api order w t os ns) (events-announce w t.at ns false s)

  events-visit_gone :
      (key : InstanceKey) (os : Registration) (n : Option Registration) (s : Sink)
      → (visit_gone api order w t key os n s).events ≡ s.events ++ gone_events os n
  unfolding gone_events
  events-visit_gone key os none s = refl
  events-visit_gone key os (some ns) s = sym (append-nil s.events)

  events-current_loop :
      (old m : Instances) (s : Sink)
      → (current_loop api order w t old m s).events
        ≡ s.events ++ for_each (λ k ns. current_events ns (lookup k old)) m
  unfolding current_loop for_each
  events-current_loop old [] s = sym (append-nil s.events)
  events-current_loop old ((key, ns) ∷ m) s =
      events-current_loop old m (visit_current api order w t ns (lookup key old) s)
      ∙ ap (λ l. l ++ for_each (λ k r. current_events r (lookup k old)) m)
          (events-visit_current ns (lookup key old) s)
      ∙ append_assoc s.events (current_events ns (lookup key old))
          (for_each (λ k r. current_events r (lookup k old)) m)

  events-gone_loop :
      (new m : Instances) (s : Sink)
      → (gone_loop api order w t new m s).events
        ≡ s.events ++ for_each (λ k os. gone_events os (lookup k new)) m
  unfolding gone_loop for_each
  events-gone_loop new [] s = sym (append-nil s.events)
  events-gone_loop new ((key, os) ∷ m) s =
      events-gone_loop new m (visit_gone api order w t key os (lookup key new) s)
      ∙ ap (λ l. l ++ for_each (λ k r. gone_events r (lookup k new)) m)
          (events-visit_gone key os (lookup key new) s)
      ∙ append_assoc s.events (gone_events os (lookup key new))
          (for_each (λ k r. gone_events r (lookup k new)) m)

  current_events-key :
      (key : InstanceKey) (ns : Registration) (o : Option Registration)
      → key_of ns ≡ key
      → All (λ e. event_key e ≡ key) (current_events ns o)
  unfolding current_events
  current_events-key key ns none h = (h, tt)
  current_events-key key ns (some os) h =
      All-compare_checks api order _ _ (decorate_check api order w t os ns) (λ e. event_key e ≡ key)
        (λ c o n. h) (service_checks os.checks) (service_checks ns.checks)

  gone_events-key :
      (key : InstanceKey) (os : Registration) (n : Option Registration)
      → key_of os ≡ key
      → All (λ e. event_key e ≡ key) (gone_events os n)
  unfolding gone_events
  gone_events-key key os none h = (h, tt)
  gone_events-key key os (some ns) h = tt

  loops_at :
      (key : InstanceKey) (o n : Option Registration)
      → at_key (λ (_ : InstanceKey) r. current_events r o) key n
          ++ at_key (λ (_ : InstanceKey) r. gone_events r n) key o
        ≡ instance_change o n
  unfolding current_events gone_events instance_change
  loops_at key none none = refl
  loops_at key none (some ns) = refl
  loops_at key (some os) none = refl
  loops_at key (some os) (some ns) = append-nil _

module _ (api : ConsulApi) (order : RangeOrder Text HealthCheck)
    (instance_order : RangeOrder InstanceKey Registration) (w : Watcher) where
  -- In any order in which the runtime visits the two maps of instances and the maps of checks: of all
  -- events that a comparison emits, those of one instance are the change between the last old and the
  -- last new entry with its node and service id. An instance that came has one event, from missing;
  -- one that left has one event, to missing; one that stayed has those of its own checks; and every
  -- other instance has none. Earlier events stay.
  pub with_key-compare_service :
      (at : Time) (index : ℕ) (old new : List CheckServiceNode) (s : Sink) (key : InstanceKey)
      → with_key event_key key
          (compare_service api order instance_order w at index old new s).events
        ≡ with_key event_key key s.events
          ++ instance_change api order w
              (round_of api order instance_order w at index old new)
              (last_instance key old)
              (last_instance key new)
  unfolding compare_service
  with_key-compare_service at index old new s key =
      ap (with_key event_key key) (
        events-gone_loop api order w t new_index (instance_order.range old_index) _
        ∙ ap (λ l. l ++ for_each gone (instance_order.range old_index))
            (events-current_loop api order w t old_index (instance_order.range new_index) s))
      ∙ with_key-append event_key key
          (s.events ++ for_each current (instance_order.range new_index))
          (for_each gone (instance_order.range old_index))
      ∙ ap (λ l. l ++ with_key event_key key (for_each gone (instance_order.range old_index)))
          (with_key-append event_key key s.events
            (for_each current (instance_order.range new_index)))
      ∙ append_assoc (with_key event_key key s.events)
          (with_key event_key key (for_each current (instance_order.range new_index)))
          (with_key event_key key (for_each gone (instance_order.range old_index)))
      ∙ ap (◌++◌ (with_key event_key key s.events)) (
          ap₂ ◌++◌
            (with_key-for_each event_key current (instance_order.range new_index) key
                (instance_order.range-IsDistinct _ (index_instances-IsDistinct new [] tt))
                (λ j r h. current_events-key api order w t j r _ (entry-key new j r h))
              ∙ ap (at_key current key) (visited new)
              ∙ ap
                  (λ o.
                    at_key (λ (_ : InstanceKey) r. current_events api order w t r o) key
                      (last_instance key new))
                  (lookup-index key old))
            (with_key-for_each event_key gone (instance_order.range old_index) key
                (instance_order.range-IsDistinct _ (index_instances-IsDistinct old [] tt))
                (λ j r h. gone_events-key api order w t j r _ (entry-key old j r h))
              ∙ ap (at_key gone key) (visited old)
              ∙ ap
                  (λ n.
                    at_key (λ (_ : InstanceKey) r. gone_events api order w t r n) key
                      (last_instance key old))
                  (lookup-index key new))
          ∙ loops_at api order w t key (last_instance key old) (last_instance key new))
    where
      t : Round
      t = round_of api order instance_order w at index old new

      old_index : Instances
      old_index = index_instances [] old

      new_index : Instances
      new_index = index_instances [] new

      current : InstanceKey → Registration → List Event
      current j r = current_events api order w t r (lookup j old_index)

      gone : InstanceKey → Registration → List Event
      gone j r = gone_events api order w t r (lookup j new_index)

      visited :
          (cs : List CheckServiceNode)
          → lookup key (instance_order.range (index_instances [] cs)) ≡ last_instance key cs
      visited cs = instance_order.lookup-range key (index_instances [] cs) ∙ lookup-index key cs

      entry-key :
          (cs : List CheckServiceNode) (j : InstanceKey) (r : Registration)
          → lookup j (instance_order.range (index_instances [] cs)) ≡ some r
          → key_of r ≡ j
      entry-key cs j r h = key_of-last_instance j cs r (
          sym (lookup-index j cs) ∙ sym (instance_order.lookup-range j (index_instances [] cs)) ∙ h)
