-- ===== src/Watch/Compare/Checks.antt =====
-- What `compareChecks` of watch/compare.go reports of each check.
use consul_timeline.Common.{
  ◌≡◌, refl, sym, ap, ap₂, ◌∙◌, Option, none, some, List, [], ◌∷◌, ◌++◌, ◌==◌, if◌then◌else◌, All,
  All-append, arith, inl, inr, Bool-cases, append-nil,
}
use consul_timeline.Common.Text.{Text, text_eq, text_beq, text_beq_iff}
use consul_timeline.Common.Assoc.{
  lookup, insert, lookup-insert, IsDistinct, insert-IsDistinct, for_each, with_key, with_key-append,
  with_key-for_each, at_key, All-for_each, RangeOrder,
}
use consul_timeline.Timeline.Status.{Status, Kind, ConsulApi, status_missing, status_from_consul}
use consul_timeline.Timeline.Event.{Event}
use consul_timeline.Consul.{HealthCheck}
use consul_timeline.Watch.Compare.{
  Checks, index_checks, check_event, current_check, gone_check, compare_checks,
}

-- The last check of a list that has an id.
pub last_check : Text → List HealthCheck → Option HealthCheck
last_check id [] = none
last_check id (c ∷ cs) = elim (last_check id cs) [
  | some d ↦ some d
  | none ↦ if c.check_id == id then some c else none
]

abbrev or_else : Option HealthCheck → Option HealthCheck → Option HealthCheck
or_else none d = d
or_else (some c) d = some c

lookup-index_checks :
    (id : Text) (cs : List HealthCheck) (m : Checks)
    → lookup id (index_checks m cs) ≡ or_else (last_check id cs) (lookup id m)
unfolding index_checks last_check
lookup-index_checks id [] m = refl
lookup-index_checks id (c ∷ cs) m =
    ground
      (arith, lookup-index_checks id cs (insert c.check_id c m), lookup-insert c.check_id id c m)

pub lookup-index :
    (id : Text) (cs : List HealthCheck) → lookup id (index_checks [] cs) ≡ last_check id cs
unfolding lookup
lookup-index id cs = ground (arith, lookup-index_checks id cs [])

pub index_checks-IsDistinct :
    (cs : List HealthCheck) (m : Checks) → IsDistinct m → IsDistinct (index_checks m cs)
unfolding index_checks
index_checks-IsDistinct [] m d = d
index_checks-IsDistinct (c ∷ cs) m d =
    index_checks-IsDistinct cs (insert c.check_id c m) (insert-IsDistinct c.check_id c m d)

check_id-last_check :
    (id : Text) (cs : List HealthCheck) (c : HealthCheck)
    → last_check id cs ≡ some c
    → c.check_id ≡ id
unfolding last_check
check_id-last_check id [] c h = absurd (cc)
check_id-last_check id (d ∷ cs) c h =
    ground (arith, check_id-last_check id cs c, text_beq_iff d.check_id id)

module _ (api : ConsulApi) (base : Event) (kind : Kind) (decorate : Event → Event) where
  -- What is to be reported of a check, given its old and its new state: nothing if it keeps its
  -- state; else one event from the old to the new status, where a check that is not there is
  -- missing, and a check that is gone has no output.
  pub change : Option HealthCheck → Option HealthCheck → List Event
  change none none = []
  change none (some nc) =
      check_event base kind decorate nc status_missing (status_from_consul api nc.status) ∷ []
  change (some oc) (some nc) =
      if oc.status == nc.status
      then []
      else check_event base kind decorate nc (status_from_consul api oc.status)
          (status_from_consul api nc.status)
        ∷ []
  change (some oc) none =
      check_event base kind decorate (record oc { output = [] }) (status_from_consul api oc.status)
        status_missing
      ∷ []

  module _ (order : RangeOrder Text HealthCheck)
      (keeps : (e : Event) → (decorate e).check_id ≡ e.check_id) where
    current_check-id :
        (id : Text) (c : HealthCheck) (o : Option HealthCheck)
        → c.check_id ≡ id
        → All (λ e. e.check_id ≡ id) (current_check api base kind decorate c o)
    current_check-id id c none h = (keeps _ ∙ h, tt)
    current_check-id id c (some d) h = elim (Bool-cases (text_beq d.status c.status)) [
      | inl s ↦ rw s tt
      | inr s ↦ rw s (keeps _ ∙ h, tt)
    ]

    gone_check-id :
        (id : Text) (c : HealthCheck) (o : Option HealthCheck)
        → c.check_id ≡ id
        → All (λ e. e.check_id ≡ id) (gone_check api base kind decorate c o)
    gone_check-id id c none h = (keeps _ ∙ h, tt)
    gone_check-id id c (some d) h = tt

    -- The two loops together, at one id.
    loops_at :
        (id : Text) (o w : Option HealthCheck)
        → at_key (λ _ c. current_check api base kind decorate c o) id w
            ++ at_key (λ _ c. gone_check api base kind decorate c w) id o
          ≡ change o w
    unfolding change
    loops_at id none none = refl
    loops_at id none (some c) = refl
    loops_at id (some d) none = refl
    loops_at id (some d) (some c) = append-nil _

    entry-id :
        (cs : List HealthCheck) (id : Text) (c : HealthCheck)
        → lookup id (order.range (index_checks [] cs)) ≡ some c
        → c.check_id ≡ id
    entry-id cs id c h =
        check_id-last_check id cs c
          (sym (lookup-index id cs) ∙ sym (order.lookup-range id (index_checks [] cs)) ∙ h)

    module _ (old new : List HealthCheck) where
      -- The events of one check, among all that a comparison emits, are the change between the last
      -- check of the old list with that id and the last one of the new list, in whatever order the
      -- runtime visits its maps. The decoration does not touch the check's id.
      pub with_key-compare_checks :
          (id : Text)
          → with_key (λ e. e.check_id) id (compare_checks api order base kind decorate old new)
            ≡ change (last_check id old) (last_check id new)
      unfolding compare_checks
      with_key-compare_checks id =
          with_key-append (λ e. e.check_id) id
            (for_each current (order.range (index_checks [] new)))
            (for_each gone (order.range (index_checks [] old)))
          ∙ ap₂ ◌++◌
              (with_key-for_each (λ e. e.check_id) current (order.range (index_checks [] new)) id
                  (order.range-IsDistinct _ (index_checks-IsDistinct new [] tt))
                  (λ j c h. current_check-id j c _ (entry-id new j c h))
                ∙ ap (at_key current id) (visited new)
                ∙ ap
                    (λ o.
                      at_key (λ _ c. current_check api base kind decorate c o) id
                        (last_check id new))
                    (lookup-index id old))
              (with_key-for_each (λ e. e.check_id) gone (order.range (index_checks [] old)) id
                  (order.range-IsDistinct _ (index_checks-IsDistinct old [] tt))
                  (λ j c h. gone_check-id j c _ (entry-id old j c h))
                ∙ ap (at_key gone id) (visited old)
                ∙ ap
                    (λ w.
                      at_key (λ _ c. gone_check api base kind decorate c w) id (last_check id old))
                    (lookup-index id new))
          ∙ loops_at id (last_check id old) (last_check id new)
        where
          current : Text → HealthCheck → List Event
          current j c = current_check api base kind decorate c (lookup j (index_checks [] old))

          gone : Text → HealthCheck → List Event
          gone j c = gone_check api base kind decorate c (lookup j (index_checks [] new))

          visited :
              (cs : List HealthCheck)
              → lookup id (order.range (index_checks [] cs)) ≡ last_check id cs
          visited cs = order.lookup-range id (index_checks [] cs) ∙ lookup-index id cs

-- What holds of every event that the closure `emit` builds holds of all that are emitted.
module _ (api : ConsulApi) (order : RangeOrder Text HealthCheck) (base : Event) (kind : Kind)
    (decorate : Event → Event) (P : Event → Type 0)
    (each : (c : HealthCheck) (o n : Status) → P (check_event base kind decorate c o n)) where
  All-current :
      (c : HealthCheck) (o : Option HealthCheck) → All P (current_check api base kind decorate c o)
  All-current c none = (each c _ _, tt)
  All-current c (some d) = elim (Bool-cases (text_beq d.status c.status)) [
    | inl s ↦ rw s tt
    | inr s ↦ rw s (each c _ _, tt)
  ]

  All-gone :
      (c : HealthCheck) (o : Option HealthCheck) → All P (gone_check api base kind decorate c o)
  All-gone c none = (each (record c { output = [] }) _ _, tt)
  All-gone c (some d) = tt

  pub All-compare_checks :
      (old new : List HealthCheck) → All P (compare_checks api order base kind decorate old new)
  unfolding compare_checks
  All-compare_checks old new =
      All-append P _ _
        (All-for_each P _ (order.range (index_checks [] new))
          (λ id c. All-current c (lookup id (index_checks [] old))))
        (All-for_each P _ (order.range (index_checks [] old))
          (λ id c. All-gone c (lookup id (index_checks [] new))))
