-- ===== src/Storage/Facets.antt =====
-- storage/memory/storage.go: `Facets`, `Suggest` and `Datacenters` of the memory storage.
pub mod Ranks
use consul_timeline.Common.{
  ℕ, zero, suc, ◌≡◌, ◌∙◌, Bool, true, false, none, some, List, [], ◌∷◌, ◌++◌, ◌==◌, if◌then◌else◌,
  ltb, nat_beq, keep, length, take, map, arith, All, length-take, sym, ◌≤◌,
}
use consul_timeline.Common.Text.{Text, text_eq, text_ltb, has_prefix}
use consul_timeline.Common.Int.{ℤ, pos}
use consul_timeline.Common.Assoc.{insert, RangeOrder}
use consul_timeline.Common.Counts.{
  count_values, count_values-IsDistinct, lookup-count_values, IsCounted, All-IsCounted,
}
use consul_timeline.Common.Sort.{sort, All-sort}
use consul_timeline.Timeline.Event.{Event, Instance, zero_time}
use consul_timeline.Storage.Query.{Query, Result, ok, err, validate, zero_cursor}
use consul_timeline.Storage.Fields.{field_values}
use consul_timeline.Storage.Memory.{Store, InstanceKey, key_eq, or_default, matching}
use consul_timeline.Storage.Backend.{FacetValue, Facets}

-- The values of all events for a field, in the order of the loops.
unfoldable pub all_values : Text → List Event → List Text
unfolding field_values
all_values f [] = []
all_values f (e ∷ es) = field_values e f ++ all_values f es

-- The comparison of the `sort.Slice` call: the highest count first, then by value.
abbrev pub facet_precedes : FacetValue → FacetValue → Bool
facet_precedes a b =
    if nat_beq a.count b.count then text_ltb a.value b.value else ltb b.count a.count

-- The loops that collect: `seen[v] = true`.
unfoldable pub mark_seen : List (Text × Bool) → List Text → List (Text × Bool)
unfolding insert
mark_seen m [] = m
mark_seen m (v ∷ vs) = mark_seen (insert v true m) vs

abbrev pub to_value : Text × ℕ → FacetValue
to_value p = record { value = p.0; count = p.1 }

module _ (order : RangeOrder Text ℕ) where
  -- One round of the loop of `Facets`.
  unfoldable pub field_facet : ℕ → List Event → Text → List FacetValue
  unfolding count_values all_values sort text_ltb
  field_facet limit all f =
      take limit
        (sort facet_precedes (map to_value (order.range (count_values [] (all_values f all)))))

  unfoldable pub fill :
      ℕ → List Event → List Text → List (Text × List FacetValue) → List (Text × List FacetValue)
  unfolding field_facet insert
  fill limit all [] m = m
  fill limit all (f ∷ fs) m = fill limit all fs (insert f (field_facet limit all f) m)

  -- `Facets`.
  unfoldable pub facets : (Text → Text) → Store → Query → List Text → ℤ → Result Facets
  unfolding validate matching fill
  facets to_lower s q fields limit = elim (validate q) [
    | some e ↦ err e
    | none ↦ ok (record {
      values = fill (or_default limit 10) (matching to_lower s q) fields [];
      sample_size = length (matching to_lower s q);
      sampled = false;
    })
  ]

-- `Query{Datacenter: dc}`.
abbrev pub whole : Text → Query
whole dc = record {
  datacenter = dc;
  from = zero_time;
  to = zero_time;
  filters = [];
  text = [];
  cursor = zero_cursor;
  limit = pos 0;
}

abbrev pub sorted_keys : RangeOrder Text Bool → List (Text × Bool) → List Text
sorted_keys order m = sort text_ltb (map (λ p. p.0) (order.range m))

module _ (order : RangeOrder Text Bool) (to_lower : Text → Text) where
  -- `Suggest`.
  unfoldable pub suggest : Store → Text → Text → Text → ℤ → List Text
  unfolding mark_seen all_values matching sort text_ltb has_prefix
  suggest s dc field prefix limit = take (or_default limit 20) (
      sorted_keys order (
        mark_seen []
          (keep (λ v. has_prefix v prefix) (all_values field (matching to_lower s (whole dc))))))

  -- `Datacenters`: those of the events and those of the instances, which the map visits in some order.
  unfoldable pub datacenters : RangeOrder InstanceKey Instance → Store → List Text
  unfolding mark_seen matching sort text_ltb
  datacenters instances s = sorted_keys order (
      mark_seen (mark_seen [] (map (λ e. e.datacenter) (matching to_lower s (whole []))))
        (map (λ p. p.0.dc) (instances.range s.instances)))
