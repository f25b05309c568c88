-- ===== src/Tests/Storage.antt =====
-- Examples on storage/storage.go, storage/memory/storage.go and storage/writer.go.
use mathlib.Core.List.{reverse, Perm}
use consul_timeline.Common.{
  ◌≡◌, refl, [], ◌∷◌, ◌++◌, List, none, true, false, keep, take, length, arith, any, ◌==◌, leb,
}
use consul_timeline.Common.Text.{Text, text_eq, bytes, text_beq, has_suffix, has_prefix}
use consul_timeline.Common.Int.{ℤ, pos}
use consul_timeline.Common.Sort.{sort}
use consul_timeline.Timeline.Event.{Event}
use consul_timeline.Storage.Query.{
  validate, validate_filters, validate_filter, validate_values, field_to,
}
use consul_timeline.Storage.Match.{
  matches, match_filters, match_filter, match_one, match_name, match_text,
}
use consul_timeline.Storage.Fields.{field_values}
use consul_timeline.Storage.Agreement.{match_one-field_values}
use consul_timeline.Storage.Memory.{new, store_one, store_events, newest, history, matching}
use consul_timeline.Storage.Memory.Ring.{number, history-store_events, new-IsValid}
use consul_timeline.Storage.Memory.Order.{
  IsStore, AreNewestFirst, store_events-IsStore, matching-AreNewestFirst_perm,
}
use consul_timeline.Storage.Memory.Walk.{walk, IsTimed, walk-matching}
use consul_timeline.Storage.Writer.{
  Attempts, Input, received, event, tick, done, empty_writer, run_writer, persist,
}
use consul_timeline.Storage.Writer.Persist.{Ends, persist-Ends}
use consul_timeline.Storage.Writer.Conserve.{
  written_events, written_instances, item_events, item_instances, items_of, run_writer_conserves,
  run_writer_drains,
}
use consul_timeline.Common.{inl, inr, ◌≤◌, All, ℕ, some}
use consul_timeline.Common.Assoc.{RangeOrder}
use consul_timeline.Storage.Query.{field_service, zero_cursor}
use consul_timeline.Timeline.Event.{Instance}
use consul_timeline.Common.Assoc.{lookup, insert}
use consul_timeline.Storage.Memory.{Store, upsert_one, upsert_instances, find_instance}
use consul_timeline.Storage.Memory.Instances.{find_instance-upsert_instances}
use consul_timeline.Storage.Backend.{Backend}
use consul_timeline.Storage.Facets.{field_facet, all_values}
use consul_timeline.Storage.Facets.Ranks.{
  AreRanked, IsCount, is_value, is_listed, field_facet-AreRanked,
}
use consul_timeline.Storage.Backend.{FacetValue}
use consul_timeline.Storage.Distributed.{
  Distributed, Op, turns, checks, performs, goes_on, sees_loss, making, store, new_distributed,
  write_all, run,
}
use consul_timeline.Storage.Distributed.Inner.{IsLed, passed, run-inner}
use consul_timeline.Common.{◌<◌, ◌-◌, ◌+◌, ◌*◌, ltb, get_or, if◌then◌else◌}
use consul_timeline.Common.Counts.{count_at}
use consul_timeline.Storage.Backend.{Bucket, split_status}
use consul_timeline.Storage.Histogram.{second, width_of, buckets_of}
use consul_timeline.Storage.Histogram.Counts.{zero_bucket, with_key, buckets_of-counts}
use consul_timeline.Storage.Histogram.Slots.{in_bucket}
use consul_timeline.Storage.Histogram.Bounds.{buckets_of-bounds}
use consul_timeline.Tests.Data.{same_case, event_at, three_events, web_query, small_store}

empty-IsStore : (c : ℤ) → IsStore (new c)
unfolding new newest
empty-IsStore c = record { valid = (new-IsValid c).0; ids = tt }

store_events-IsStore_example : IsStore small_store
store_events-IsStore_example =
    store_events-IsStore (new (pos 3)) three_events (empty-IsStore (pos 3))

small-IsStore : IsStore small_store
small-IsStore = store_events-IsStore (new (pos 3)) three_events (empty-IsStore (pos 3))

small-IsTimed : IsTimed same_case small_store
unfolding new store_one store_events newest
small-IsTimed = (λ e. omega arith, (λ e. omega arith, (λ e. omega arith, tt)))

-- Four events in an array of three.
history-store_events_example :
    history (store_events small_store (event_at (bytes "web") 30 ∷ []))
    ≡ take (length small_store.events) (
        reverse (number small_store.next_id (event_at (bytes "web") 30 ∷ []))
        ++ history small_store)
history-store_events_example =
    history-store_events small_store (event_at (bytes "web") 30 ∷ []) small-IsStore.valid

matching-AreNewestFirst_perm_example :
    AreNewestFirst (matching same_case small_store web_query)
    × Perm
        (matching same_case small_store web_query)
        (keep (λ e. matches same_case e web_query) (history small_store))
matching-AreNewestFirst_perm_example =
    matching-AreNewestFirst_perm same_case small_store web_query small-IsStore

-- Two pages of one event each.
walk-matching_example :
    walk same_case 3 small_store web_query ≡ matching same_case small_store web_query
unfolding validate validate_filters validate_filter validate_values matching matches match_filters
    match_filter match_one match_name match_text new store_one store_events newest sort has_suffix
    has_prefix text_beq
walk-matching_example =
    walk-matching same_case small_store web_query 3 small-IsStore small-IsTimed refl refl
      (omega arith)

abbrev web_event : Event
web_event = event_at (bytes "web") 10

match_one-field_values_example :
    match_one field_to web_event (bytes "critical")
    ≡ any (λ t. t == bytes "critical") (field_values web_event field_to)
unfolding has_suffix
match_one-field_values_example =
    match_one-field_values web_event (bytes "critical") refl (λ e. absurd (cc)) field_to
      (λ e. absurd (cc))

-- The first two attempts fail, and the context never ends.
abbrev flaky : Attempts
flaky = record { fails = λ n. leb n 2; ended = λ n. false; ends_waiting = λ n. false }

persist-Ends_example : Ends flaky (persist flaky)
persist-Ends_example = persist-Ends flaky

-- Two events fill a batch, a third one is queued when the context ends.
abbrev inputs : List Input
inputs =
    received (event (event_at (bytes "web") 10))
    ∷ tick
    ∷ received (event (event_at (bytes "db") 11))
    ∷ done (event (event_at (bytes "web") 12) ∷ [])
    ∷ []

run_writer_conserves_example :
    let s = run_writer 2 (λ n. flaky) empty_writer inputs in
    (written_events s.writes ++ s.ev_batch ≡ item_events (items_of inputs))
    × (written_instances s.writes ++ s.inst_batch ≡ item_instances (items_of inputs))
run_writer_conserves_example = run_writer_conserves 2 (λ n. flaky) inputs

run_writer_drains_example :
    let s = run_writer 2 (λ n. flaky) empty_writer inputs in
    (written_events s.writes ≡ item_events (items_of inputs))
    × (written_instances s.writes ≡ item_instances (items_of inputs))
run_writer_drains_example = run_writer_drains 2 (λ n. flaky) inputs refl

-- A runtime that visits every map in the order of insertion.
abbrev count_order : RangeOrder Text ℕ
count_order = record { range = λ m. m; lookup-range = λ k m. refl; range-IsDistinct = λ m d. d }

field_facet-AreRanked_example :
    (ranked : List FacetValue) × ((field_facet count_order 1 three_events field_service
        ≡ take 1 ranked)
      × (AreRanked ranked
          × (All (IsCount (all_values field_service three_events)) ranked
              × ((v : Text)
                  → is_value v (all_values field_service three_events) ≡ true
                  → is_listed v ranked ≡ true))))
field_facet-AreRanked_example = field_facet-AreRanked count_order 1 three_events field_service

-- A backend that only remembers the events it was given.
abbrev recorder : Backend (List Event) Text
recorder = record {
  store_events = λ es s. (none, s ++ es);
  upsert_instances = λ is s. (none, s);
  maintain = λ s. (none, s);
  events = λ q s. inr (record { events = s; next = zero_cursor; has_more = false });
  histogram = λ q n split s. inr ([], false);
  facets = λ q fs n s. inl [];
  suggest = λ dc f p n s. inr [];
  instance_of = λ dc n i s. inr none;
  datacenters = λ s. inr [];
  since = λ dc t n s. inr s;
}

-- A call before the lock is held, one that writes while it is held, one that looks at the flag then
-- and writes after the flag is cleared, and one that looks after that.
abbrev ops : List Op
ops =
    checks (store (event_at (bytes "web") 10 ∷ []))
    ∷ turns goes_on
    ∷ turns goes_on
    ∷ turns goes_on
    ∷ turns goes_on
    ∷ checks (store (event_at (bytes "db") 11 ∷ []))
    ∷ performs 0
    ∷ checks (store (event_at (bytes "db") 12 ∷ []))
    ∷ turns sees_loss
    ∷ turns goes_on
    ∷ performs 0
    ∷ turns goes_on
    ∷ checks (store (event_at (bytes "web") 13 ∷ []))
    ∷ performs 0
    ∷ []

run-inner_example :
    (e : Distributed (List Event) Text) × (run recorder (new_distributed []) ops ≡ some e)
    × IsLed e
    × (e.inner ≡ write_all recorder (passed making [] ops) [])
run-inner_example = run-inner recorder [] ops

abbrev web_instance : ℕ → Instance
web_instance at = record {
  datacenter = bytes "dc1";
  node_name = bytes "n1";
  service_id = bytes "web-1";
  service_name = bytes "web";
  node_ip = [];
  address = [];
  port = pos 80;
  team = [];
  app = [];
  version = [];
  tags = [];
  meta = [];
  node_meta = [];
  first_seen = at;
  last_seen = at;
}

abbrev known : Store
known = upsert_instances small_store (web_instance 10 ∷ [])

find_instance-upsert_instances_example :
    (new : Instance) × (find_instance
        (upsert_instances known (web_instance 20 ∷ []))
        (bytes "dc1")
        (bytes "n1")
        (bytes "web-1")
      ≡ some new)
    × (new.first_seen ≡ 10)
unfolding find_instance upsert_instances upsert_one lookup insert new store_events store_one
    text_beq
find_instance-upsert_instances_example =
    find_instance-upsert_instances known (web_instance 20 ∷ []) (web_instance 10) (bytes "dc1")
      (bytes "n1") (bytes "web-1") refl

-- Sixty buckets are asked for a range of a hundred seconds, and a hundred are made.
buckets_of-bounds_example :
    (out : List Bucket) × ((buckets_of split_status 0 (100 * second) 60 three_events ≡ some out)
      × (((i : ℕ)
            → i < length out
            → (get_or out i zero_bucket).start ≡ 0 + i * width_of (100 * second - 0) 60)
          × ((second ≤ width_of (100 * second - 0) 60)
              × ((length out ≤ 2 * 60)
                  × (100 * second ≤ 0 + width_of (100 * second - 0) 60 * length out)))))
buckets_of-bounds_example =
    buckets_of-bounds split_status 0 (100 * second) 60 three_events (omega arith) (omega arith)
      (omega arith)

buckets_of-counts_example :
    (out : List Bucket) × ((buckets_of split_status 0 (100 * second) 60 three_events ≡ some out)
      × (((get_or out 0 zero_bucket).total ≡ (
            if ltb 0 (length out)
            then length (in_bucket 0 (width_of (100 * second - 0) 60) 0 three_events)
            else 0))
          × (count_at (bytes "critical") (get_or out 0 zero_bucket).by ≡ (
              if ltb 0 (length out)
              then length (
                  with_key split_status
                    (bytes "critical")
                    (in_bucket 0 (width_of (100 * second - 0) 60) 0 three_events))
              else 0))))
buckets_of-counts_example =
    buckets_of-counts split_status 0 (100 * second) 60 three_events 0 (bytes "critical")
      (omega arith) (omega arith) (omega arith)
