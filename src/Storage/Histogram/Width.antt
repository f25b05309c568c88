-- ===== src/Storage/Histogram/Width.antt =====
-- The width and the number of the buckets of storage/memory/storage.go.
use native.Mathlib.Nat.{div-add-mod, div-le_self, div-lt_iff_lt-mul, mod-lt, mul-le-mul_left}
use consul_timeline.Common.{
  ℕ, ◌+◌, ◌-◌, ◌*◌, ◌/◌, ◌≤◌, ◌<◌, ◌≡◌, refl, Bool, true, false, Option, none, some, List, [],
  if◌then◌else◌, ltb, nat_beq, arith,
}
use consul_timeline.Common.Text.{text_eq}
use consul_timeline.Timeline.Event.{Event, Time}
use consul_timeline.Storage.Backend.{Split, Bucket}
use consul_timeline.Storage.Histogram.{
  second, duration_limit, span_of, width_of, bucket_count, empty_buckets, count_events, buckets_of,
}

-- Twice a width that is no less than half of what each bucket needs is enough.
pub enough_twice :
    (span buckets w : ℕ)
    → 1 ≤ buckets
    → (span + buckets - 1) / buckets ≤ 2 * w
    → span ≤ buckets * (2 * w)
enough_twice span buckets w b h = omega (
  arith,
  div-add-mod (span + buckets - 1) buckets,
  mod-lt (span + buckets - 1) {m = buckets} b,
  mul-le-mul_left {m = (span + buckets - 1) / buckets} {n = 2 * w} buckets h,
)

-- The width is a second at least, and no less than half of what is needed.
pub width_of-bounds :
    (span buckets : ℕ)
    → 1 ≤ buckets
    → span + buckets - 1 < duration_limit
    → (second ≤ width_of span buckets) × (span ≤ buckets * (2 * width_of span buckets))
unfolding width_of
width_of-bounds span buckets b h =
    (ground arith, enough_twice span buckets (width_of span buckets) b (ground arith))

-- The buckets cover the span, and are at most twice as many as asked for.
pub bucket_count-bounds :
    (span buckets width : ℕ)
    → 1 ≤ width
    → span ≤ buckets * (2 * width)
    → (span ≤ width * ((span + width - 1) / width)) × ((span + width - 1) / width ≤ 2 * buckets)
bucket_count-bounds span buckets width w h = (
  omega (arith, div-add-mod (span + width - 1) width, mod-lt (span + width - 1) {m = width} w),
  let lt : (span + width - 1) / width < 2 * buckets + 1 =
        (div-lt_iff_lt-mul {k = width} {x = span + width - 1} {y = 2 * buckets + 1} w).1
          (omega (arith, h, w)) in
      omega (arith, lt),
)

-- The number of buckets and their width, where nothing overflows.
abbrev pub width_at : Time → Time → ℕ → ℕ
width_at from to buckets = width_of (span_of from to) buckets

abbrev pub count_of : Time → Time → ℕ → ℕ
count_of from to buckets =
    (span_of from to + width_at from to buckets - 1) / width_at from to buckets

pub span_of-exact : (from to : Time) → to - from < duration_limit → span_of from to ≡ to - from
span_of-exact from to h = omega (arith, h)

pub width_of-le :
    (span buckets : ℕ)
    → span + buckets - 1 < duration_limit
    → width_of span buckets ≤ span + buckets + second
unfolding width_of
width_of-le span buckets h = ground (arith, div-le_self (span + buckets - 1) buckets)

pub buckets_of-some :
    (split : Split) (from to : Time) (buckets : ℕ) (es : List Event)
    → from < to
    → 2 * (to - from) + buckets + second < duration_limit
    → buckets_of split from to buckets es
      ≡ some (
          count_events split from
            (width_at from to buckets)
            es
            (empty_buckets from (width_at from to buckets) (count_of from to buckets)))
unfolding buckets_of bucket_count
buckets_of-some split from to buckets es l h =
    let exact : span_of from to ≡ to - from = span_of-exact from to (omega (arith, h)) in
    let small : span_of from to + width_at from to buckets - 1 < duration_limit =
      omega (arith, exact, h, width_of-le (span_of from to) buckets (omega (arith, exact, h))) in
    let some_span : nat_beq (span_of from to) 0 ≡ false = ground (arith, exact) in
    let fits : ltb (span_of from to + width_at from to buckets - 1) duration_limit ≡ true =
      ground (arith, small) in
    go (nat_beq (span_of from to) 0)
      (ltb (span_of from to + width_at from to buckets - 1) duration_limit) some_span fits
  where
    out : ℕ → List Bucket
    out n =
        count_events split from (width_at from to buckets) es
          (empty_buckets from (width_at from to buckets) n)

    then_out : Option ℕ → Option (List Bucket)
    then_out none = none
    then_out (some n) = some (out n)

    go :
        (a b : Bool)
        → a ≡ false
        → b ≡ true
        → (if a
            then some []
            else then_out (
                if b
                then some (count_of from to buckets)
                else if ltb
                    (2 * duration_limit - (span_of from to + width_at from to buckets - 1))
                    (width_at from to buckets)
                then some 0
                else none))
          ≡ some (out (count_of from to buckets))
    go false true e f = refl
    go true b e f = absurd (cc)
    go false false e f = absurd (cc)
