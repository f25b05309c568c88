-- ===== src/Storage/Histogram.antt =====
-- storage/memory/storage.go: `Histogram`, whose durations are integers of 64 bits.
pub mod Width
pub mod Slots
pub mod Counts
pub mod Bounds
use consul_timeline.Common.{
  ℕ, zero, suc, ◌+◌, ◌-◌, ◌*◌, ◌/◌, ◌%◌, ◌^◌, ◌≡◌, min, Bool, true, false, Option, none, some, List,
  [], ◌∷◌, if◌then◌else◌, ltb, leb, nat_beq, modify,
}
use consul_timeline.Common.Text.{Text, text_eq}
use consul_timeline.Common.Int.{ℤ, pos}
use consul_timeline.Common.Assoc.{lookup, insert}
use consul_timeline.Common.Counts.{count_at}
use consul_timeline.Timeline.Event.{Event, Time}
use consul_timeline.Storage.Query.{Query, Result, ok, err, validate, is_zero}
use consul_timeline.Storage.Backend.{Split, Bucket, bucket_key}
use consul_timeline.Storage.Memory.{Store, matching, or_default}

-- `time.Second` and `time.Hour`, in nanoseconds.
abbrev pub second : ℕ
second = 1_000_000_000

abbrev pub hour : ℕ
hour = 3_600_000_000_000

-- A `time.Duration` is less than this.
abbrev pub duration_limit : ℕ
duration_limit = 9_223_372_036_854_775_808

-- What `Time.Sub` makes of a difference.
abbrev pub saturate : ℕ → ℕ
saturate d = min d (duration_limit - 1)

-- `to.Sub(from)`; 0 stands for every span that is not positive.
abbrev pub span_of : Time → Time → ℕ
span_of from to = saturate (to - from)

-- `Duration.Truncate`, on a duration that is not negative.
abbrev pub truncated : ℕ → ℕ → ℕ
truncated unit d = d - d % unit

abbrev pub at_least : ℕ → ℕ → ℕ
at_least unit d = if ltb d unit then unit else d

-- The width of a bucket: a sum that overflows is negative, and so is what is computed from it.
unfoldable pub width_of : ℕ → ℕ → ℕ
width_of span buckets = at_least second (
    if ltb (span + buckets - 1) duration_limit
    then truncated second ((span + buckets - 1) / buckets)
    else 0)

-- The number of buckets: a sum that overflows is negative, and `make` panics on a negative number.
unfoldable pub bucket_count : ℕ → ℕ → Option ℕ
bucket_count span width =
    if ltb (span + width - 1) duration_limit
    then some ((span + width - 1) / width)
    else if ltb (2 * duration_limit - (span + width - 1)) width
    then some 0
    else none

-- The loop that fills `out`.
unfoldable pub empty_buckets : Time → ℕ → ℕ → List Bucket
empty_buckets from width zero = []
empty_buckets from width (suc n) =
    record { start = from; total = 0; by = [] } ∷ empty_buckets (from + width) width n

-- `int(t.Sub(from) / width)`, a division that rounds towards 0; `none` is a negative number.
unfoldable pub slot : Time → ℕ → Time → Option ℕ
slot from width t =
    if leb from t
    then some (saturate (t - from) / width)
    else if ltb (saturate (from - t)) width
    then some 0
    else none

-- Adds to the total and to one count of a bucket.
unfoldable pub bump : Text → ℕ → Bucket → Bucket
unfolding lookup insert
bump key count b = record b {
  total = b.total + count;
  by = insert key (count_at key b.by + count) b.by;
}

-- One round of the loop over the events; an index that is out of range is passed over.
unfoldable pub add_at : List Bucket → Option ℕ → Text → ℕ → List Bucket
unfolding bump
add_at out none key count = out
add_at out (some i) key count = modify out i (bump key count)

unfoldable pub count_events : Split → Time → ℕ → List Event → List Bucket → List Bucket
unfolding slot add_at bucket_key
count_events split from width [] out = out
count_events split from width (e ∷ es) out =
    count_events split from width es (add_at out (slot from width e.time) (bucket_key e split) 1)

-- The buckets of some events; `none` is a panic.
unfoldable pub buckets_of : Split → Time → Time → ℕ → List Event → Option (List Bucket)
unfolding width_of bucket_count empty_buckets count_events
buckets_of split from to buckets es =
    let span = span_of from to in
    let width = width_of span buckets in
    if nat_beq span 0 then some [] else elim (bucket_count span width) [
      | none ↦ none
      | some n ↦ some (count_events split from width es (empty_buckets from width n))
    ]

abbrev unsampled : Option (List Bucket) → Option (Result (List Bucket × Bool))
unsampled none = none
unsampled (some out) = some (ok (out, false))

-- `Histogram` at a time; `none` is a panic.
unfoldable pub histogram :
    (Text → Text) → Store → Query → Time → ℤ → Split → Option (Result (List Bucket × Bool))
unfolding validate matching buckets_of
histogram to_lower s q now buckets split = elim (validate q) [
  | some e ↦ some (err e)
  | none ↦
      let to = if is_zero q.to then now else q.to in
      let from = if is_zero q.from then to - hour else q.from in
      unsampled (buckets_of split from to (or_default buckets 60) (matching to_lower s q))
]
