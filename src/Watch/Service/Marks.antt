-- ===== src/Watch/Service/Marks.antt =====
-- What `compareService` of watch/compare.go remembers about each instance.
use consul_timeline.Common.{◌<◌, ◌-◌, ◌≡◌, Option, none, some}
use consul_timeline.Common.Text.{Text, text_eq}
use consul_timeline.Common.Assoc.{lookup, RangeOrder}
use consul_timeline.Timeline.Status.{ConsulApi}
use consul_timeline.Timeline.Event.{Time}
use consul_timeline.Consul.{HealthCheck, Registration}
use consul_timeline.Watch.Compare.{InstanceKey, InstanceMark, key_eq, key_of, Instances}
use consul_timeline.Watch.Fingerprint.{fingerprint}
use consul_timeline.Watch.Service.{Watcher, Sink}

abbrev mark_at : InstanceKey → Sink → Option InstanceMark
mark_at key s = lookup key s.marks

-- A mark that says that the registration was announced as it is, less than a day ago.
abbrev pub IsMarked : Time → Registration → Option InstanceMark → Type 0
IsMarked at r o =
    (m : InstanceMark) × ((o ≡ some m)
      × ((m.fingerprint ≡ fingerprint r) × (at - m.announced < 86_400_000_000_000)))

-- Every entry of a map of instances stands under its own key.
abbrev IsKeyed : Instances → Type 0
IsKeyed m = (j : InstanceKey) (r : Registration) → lookup j m ≡ some r → key_of r ≡ j

module _ (api : ConsulApi) (order : RangeOrder Text HealthCheck)
    (instance_order : RangeOrder InstanceKey Registration) (w : Watcher) where
  -- What is known of an instance after a comparison, given its old and new registration and the
  -- mark from before.
  abbrev pub MarkedAfter :
      Time
      → Option Registration
      → Option Registration
      → Option InstanceMark
      → Option InstanceMark
      → Type 0
  MarkedAfter at o (some r) before after = IsMarked at r after
  MarkedAfter at (some r) none before after = after ≡ none
  MarkedAfter at none none before after = after ≡ before
