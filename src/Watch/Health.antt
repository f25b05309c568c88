-- ===== src/Watch/Health.antt =====
-- watch/compare.go: the status that a set of checks adds up to.
pub mod Worst
use consul_timeline.Common.{
  ◌≡◌, refl, Bool, true, false, ◌||◌, ◌&&◌, List, [], ◌∷◌, ◌==◌, if◌then◌else◌, any, keep, arith,
  not,
}
use consul_timeline.Common.Text.{Text, text_eq, has_prefix}
use consul_timeline.Timeline.Status.{
  Status, ConsulApi, status_unknown, status_missing, status_critical, status_warning,
  status_passing, status_maintenance,
}
use consul_timeline.Consul.{HealthCheck}

-- The four variables of `aggregate`.
pub record Seen : Type 0 where
  pub passing : Bool
  pub warning : Bool
  pub critical : Bool
  pub maintenance : Bool

abbrev pub nothing_seen : Seen
nothing_seen = record { passing = false; warning = false; critical = false; maintenance = false }

abbrev pub status_of_seen : Seen → Status
status_of_seen s =
    if s.maintenance
    then status_maintenance
    else if s.critical
    then status_critical
    else if s.warning
    then status_warning
    else if s.passing
    then status_passing
    else status_unknown

module _ (api : ConsulApi) where
  abbrev pub is_maintenance : HealthCheck → Bool
  is_maintenance c = c.check_id == api.node_maint || has_prefix c.check_id api.service_maint_prefix

  -- One round of the loop of `aggregate`.
  unfoldable pub see : Seen → HealthCheck → Seen
  see s c =
      if is_maintenance c
      then record s { maintenance = true }
      else if c.status == api.health_passing
      then record s { passing = true }
      else if c.status == api.health_warning
      then record s { warning = true }
      else if c.status == api.health_critical
      then record s { critical = true }
      else s

  unfoldable pub see_all : Seen → List HealthCheck → Seen
  unfolding see
  see_all s [] = s
  see_all s (c ∷ cs) = see_all (see s c) cs

  unfoldable pub aggregate : List HealthCheck → Status
  unfolding see_all
  aggregate checks = status_of_seen (see_all nothing_seen checks)

  -- `instanceStatus`: no checks at all means passing.
  unfoldable pub instance_status : List HealthCheck → Status
  unfolding aggregate
  instance_status [] = status_passing
  instance_status (c ∷ cs) = aggregate (c ∷ cs)

  -- `nodeStatus`: no checks means the node is gone.
  unfoldable pub node_status : List HealthCheck → Status
  unfolding aggregate
  node_status [] = status_missing
  node_status (c ∷ cs) = aggregate (c ∷ cs)

-- `serviceChecks`.
unfoldable pub service_checks : List HealthCheck → List HealthCheck
service_checks checks = keep (λ c. not (c.service_id == [])) checks

-- `nodeChecks` of watch/watch.go.
unfoldable pub node_checks : List HealthCheck → List HealthCheck
node_checks checks = keep (λ c. c.service_id == []) checks
