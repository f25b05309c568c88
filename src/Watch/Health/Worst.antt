-- ===== src/Watch/Health/Worst.antt =====
-- What `aggregate` of watch/compare.go computes, said without its loop.
use consul_timeline.Common.{
  ◌≡◌, ◌≢◌, refl, ◌∙◌, Bool, true, false, ◌||◌, List, [], ◌∷◌, ◌==◌, if◌then◌else◌, any, arith,
  Bool-cases, inl, inr,
}
use consul_timeline.Common.Text.{Text, text_eq, text_beq_iff}
use consul_timeline.Timeline.Status.{
  Status, ConsulApi, status_unknown, status_missing, status_critical, status_warning,
  status_passing, status_maintenance,
}
use consul_timeline.Consul.{HealthCheck}
use consul_timeline.Watch.Health.{
  Seen, nothing_seen, is_maintenance, see, see_all, status_of_seen, aggregate, instance_status,
  node_status,
}

-- The three states that a check reports have different names.
pub record HasDistinctStates (api : ConsulApi) : Type 0 where
  pub passing_warning : api.health_passing ≢ api.health_warning
  pub passing_critical : api.health_passing ≢ api.health_critical
  pub warning_critical : api.health_warning ≢ api.health_critical

-- Some check is in a state.
abbrev pub some_check : Text → List HealthCheck → Bool
some_check status = any (λ c. c.status == status)

module _ (api : ConsulApi) where
  -- Maintenance wins, then critical, warning, passing.
  abbrev pub worst : List HealthCheck → Status
  worst checks =
      if any (is_maintenance api) checks
      then status_maintenance
      else if some_check api.health_critical checks
      then status_critical
      else if some_check api.health_warning checks
      then status_warning
      else if some_check api.health_passing checks
      then status_passing
      else status_unknown

  maintenance_seen :
      (s : Seen) (cs : List HealthCheck)
      → (see_all api s cs).maintenance ≡ (s.maintenance || any (is_maintenance api) cs)
  unfolding see_all
  maintenance_seen s [] = ground arith
  maintenance_seen s (c ∷ cs) = ground (arith, maintenance_seen (see api s c) cs)

  module _ (d : HasDistinctStates api) where
    -- While no check is for maintenance, each variable says whether its state was seen.
    states_seen :
        (s : Seen) (cs : List HealthCheck)
        → any (is_maintenance api) cs ≡ false
        → ((see_all api s cs).critical ≡ (s.critical || some_check api.health_critical cs))
          × ((see_all api s cs).warning ≡ (s.warning || some_check api.health_warning cs))
          × ((see_all api s cs).passing ≡ (s.passing || some_check api.health_passing cs))
    unfolding see_all
    states_seen s [] h = ground arith
    states_seen s (c ∷ cs) h = ground (
      arith,
      states_seen (see api s c) cs,
      d.passing_warning,
      d.passing_critical,
      d.warning_critical,
      text_beq_iff c.status api.health_passing,
      text_beq_iff c.status api.health_warning,
      text_beq_iff c.status api.health_critical,
    )

    aggregate-worst : (cs : List HealthCheck) → aggregate api cs ≡ worst cs
    unfolding aggregate
    aggregate-worst cs = elim (Bool-cases (any (is_maintenance api) cs)) [
      | inl m ↦
          let k : (see_all api nothing_seen cs).maintenance ≡ true =
            maintenance_seen nothing_seen cs ∙ m in
          rw (k, m) refl
      | inr m ↦
          let k : (see_all api nothing_seen cs).maintenance ≡ false =
            maintenance_seen nothing_seen cs ∙ m in
          let (a, b, c) = states_seen nothing_seen cs m in
          status_path (see_all api nothing_seen cs)
            (record {
              passing = some_check api.health_passing cs;
              warning = some_check api.health_warning cs;
              critical = some_check api.health_critical cs;
              maintenance = false;
            })
            k a b c
          ∙ rw m refl
    ]
      where
        status_path :
            (s t : Seen)
            → s.maintenance ≡ t.maintenance
            → s.critical ≡ t.critical
            → s.warning ≡ t.warning
            → s.passing ≡ t.passing
            → status_of_seen s ≡ status_of_seen t
        status_path s t m c w p = rw (m, c, w, p) refl

    abbrev pub is_empty : List HealthCheck → Bool
    is_empty [] = true
    is_empty (c ∷ cs) = false

    -- The status of an instance or a node is its worst check's: maintenance wins, then critical,
    -- warning, passing, and unknown if no check is in a known state. With no checks an instance is
    -- passing and a node is missing. The names of the three states are distinct.
    pub statuses-worst :
        (cs : List HealthCheck)
        → (instance_status api cs ≡ (if is_empty cs then status_passing else worst cs))
          × (node_status api cs ≡ (if is_empty cs then status_missing else worst cs))
    unfolding instance_status node_status
    statuses-worst [] = (refl, refl)
    statuses-worst (c ∷ cs) = (aggregate-worst (c ∷ cs), aggregate-worst (c ∷ cs))
