-- ===== src/Storage/Histogram/Bounds.antt =====
-- How many buckets storage/memory/storage.go makes, and what they cover.
use consul_timeline.Common.{
  ℕ, zero, suc, ◌+◌, ◌-◌, ◌*◌, ◌≤◌, ◌<◌, ◌≡◌, refl, sym, ap, subst, ◌∙◌, Option, none, some, List,
  [], ◌∷◌, length, get_or, modify, arith,
}
use consul_timeline.Common.Text.{Text, text_eq}
use consul_timeline.Timeline.Event.{Event, Time}
use consul_timeline.Storage.Backend.{Split, Bucket, bucket_key}
use consul_timeline.Storage.Histogram.{
  second, duration_limit, span_of, width_of, empty_buckets, slot, bump, add_at, count_events,
  buckets_of,
}
use consul_timeline.Storage.Histogram.Width.{
  width_of-bounds, bucket_count-bounds, width_at, count_of, span_of-exact, buckets_of-some,
}
use consul_timeline.Storage.Histogram.Counts.{
  zero_bucket, length-count_events, length-empty_buckets,
}

start-modify :
    (out : List Bucket) (i j : ℕ) (key : Text) (n : ℕ)
    → (get_or (modify out j (bump key n)) i zero_bucket).start ≡ (get_or out i zero_bucket).start
unfolding bump
start-modify [] i j key n = refl
start-modify (b ∷ out) zero zero key n = refl
start-modify (b ∷ out) zero (suc j) key n = refl
start-modify (b ∷ out) (suc i) zero key n = refl
start-modify (b ∷ out) (suc i) (suc j) key n = start-modify out i j key n

start-add_at :
    (out : List Bucket) (o : Option ℕ) (i : ℕ) (key : Text) (n : ℕ)
    → (get_or (add_at out o key n) i zero_bucket).start ≡ (get_or out i zero_bucket).start
unfolding add_at
start-add_at out none i key n = refl
start-add_at out (some j) i key n = start-modify out i j key n

start-count_events :
    (split : Split) (from : Time) (width : ℕ) (es : List Event) (out : List Bucket) (i : ℕ)
    → (get_or (count_events split from width es out) i zero_bucket).start
      ≡ (get_or out i zero_bucket).start
unfolding count_events
start-count_events split from width [] out i = refl
start-count_events split from width (e ∷ es) out i =
    start-count_events split from width es _ i
    ∙ start-add_at out (slot from width e.time) i (bucket_key e split) 1

start-empty_buckets :
    (from : Time) (width n i : ℕ)
    → i < n
    → (get_or (empty_buckets from width n) i zero_bucket).start ≡ from + i * width
unfolding empty_buckets
start-empty_buckets from width zero i h = absurd (omega arith)
start-empty_buckets from width (suc n) zero h = omega arith
start-empty_buckets from width (suc n) (suc i) h =
    omega (arith, start-empty_buckets (from + width) width n i (omega arith))

-- The buckets of a histogram start at the start of the range and follow each other at equal widths of
-- a second or more, up to the end of the range or past it; there are at most twice as many as were
-- asked for. At least one bucket is asked for, the end is after the
-- start, and twice the time between them still is a duration of 64 bits.
pub buckets_of-bounds :
    (split : Split) (from to : Time) (buckets : ℕ) (es : List Event)
    → 1 ≤ buckets
    → from < to
    → 2 * (to - from) + buckets + second < duration_limit
    → (out : List Bucket) × ((buckets_of split from to buckets es ≡ some out)
        × (((i : ℕ)
              → i < length out
              → (get_or out i zero_bucket).start ≡ from + i * width_of (to - from) buckets)
            × ((second ≤ width_of (to - from) buckets)
                × ((length out ≤ 2 * buckets)
                    × (to ≤ from + width_of (to - from) buckets * length out)))))
buckets_of-bounds split from to buckets es b l h =
    let width : ℕ = width_at from to buckets in
    let n : ℕ = count_of from to buckets in
    let out : List Bucket = count_events split from width es (empty_buckets from width n) in
    let exact : span_of from to ≡ to - from = span_of-exact from to (omega (arith, h)) in
    let wide = width_of-bounds (span_of from to) buckets b (omega (arith, exact, h)) in
    let fits = bucket_count-bounds (span_of from to) buckets width (omega (arith, wide.0)) wide.1 in
    let long : length out ≡ n =
      length-count_events split from width es (empty_buckets from width n)
      ∙ length-empty_buckets from width n in
    (
      out,
      (
        buckets_of-some split from to buckets es l h,
        (
          (λ i k.
              start-count_events split from width es (empty_buckets from width n) i
              ∙ start-empty_buckets from width n i (omega (arith, k, long))
              ∙ ap (λ d. from + i * width_of d buckets) exact),
          (
            subst (λ d. second ≤ width_of d buckets) exact wide.0,
            (
              omega (arith, fits.1, long),
              subst (λ d. to ≤ from + width_of d buckets * length out) exact
                  (subst (λ k. to ≤ from + width * k) (sym long) (omega (arith, fits.0, exact, l))),
            ),
          ),
        ),
      ),
    )
