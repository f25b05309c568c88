-- ===== src/Storage/Histogram/Counts.antt =====
-- What the buckets of storage/memory/storage.go hold.
use native.Mathlib.Nat.{div-add-mod, mul-le-mul_left}
use consul_timeline.Common.{
  ℕ, zero, suc, ◌+◌, ◌-◌, ◌*◌, ◌≤◌, ◌<◌, ◌≡◌, refl, ap, ◌∙◌, Bool, true, false, ◌&&◌, Option, none,
  some, List, [], ◌∷◌, if◌then◌else◌, ltb, nat_beq, modify, get_or, length, keep, arith, ◌==◌,
  Bool-cases, inl, inr,
}
use consul_timeline.Common.Text.{Text, text_eq, text_beq_iff}
use consul_timeline.Common.Assoc.{lookup}
use consul_timeline.Common.Counts.{count_at, count_at-insert}
use consul_timeline.Timeline.Event.{Event, Time}
use consul_timeline.Storage.Backend.{Split, Bucket, bucket_key}
use consul_timeline.Storage.Histogram.{
  second, duration_limit, span_of, width_of, empty_buckets, slot, bump, add_at, count_events,
  buckets_of,
}
use consul_timeline.Storage.Histogram.Slots.{is_slot, in_bucket, slot_events, slot_events-in_bucket}
use consul_timeline.Storage.Histogram.Width.{
  width_at, count_of, buckets_of-some, span_of-exact, width_of-bounds, width_of-le,
}

abbrev pub zero_bucket : Bucket
zero_bucket = record { start = 0; total = 0; by = [] }

-- Those of some events that have a key.
abbrev pub with_key : Split → Text → List Event → List Event
with_key split key es = keep (λ e. bucket_key e split == key) es

get_or-modify :
    {A : Type 0} (xs : List A) (i j : ℕ) (f : A → A) (d : A)
    → get_or (modify xs j f) i d ≡ (
        if nat_beq j i then (if ltb i (length xs) then f (get_or xs i d) else d) else get_or xs i d)
get_or-modify [] i j f d = ground arith
get_or-modify (x ∷ xs) zero zero f d = ground arith
get_or-modify (x ∷ xs) zero (suc j) f d = ground arith
get_or-modify (x ∷ xs) (suc i) zero f d = ground arith
get_or-modify (x ∷ xs) (suc i) (suc j) f d = ground (arith, get_or-modify xs i j f d)

get_or-past : {A : Type 0} (xs : List A) (i : ℕ) (d : A) → length xs ≤ i → get_or xs i d ≡ d
get_or-past [] i d h = refl
get_or-past (x ∷ xs) zero d h = absurd (omega arith)
get_or-past (x ∷ xs) (suc i) d h = get_or-past xs i d (omega arith)

length-modify : {A : Type 0} (xs : List A) (j : ℕ) (f : A → A) → length (modify xs j f) ≡ length xs
length-modify [] j f = refl
length-modify (x ∷ xs) zero f = refl
length-modify (x ∷ xs) (suc j) f = ap suc (length-modify xs j f)

pub length-add_at :
    (out : List Bucket) (o : Option ℕ) (key : Text) (n : ℕ)
    → length (add_at out o key n) ≡ length out
unfolding add_at
length-add_at out none key n = refl
length-add_at out (some i) key n = length-modify out i (bump key n)

pub length-count_events :
    (split : Split) (from : Time) (width : ℕ) (es : List Event) (out : List Bucket)
    → length (count_events split from width es out) ≡ length out
unfolding count_events
length-count_events split from width [] out = refl
length-count_events split from width (e ∷ es) out =
    length-count_events split from width es
      (add_at out (slot from width e.time) (bucket_key e split) 1)
    ∙ length-add_at out (slot from width e.time) (bucket_key e split) 1

total-add_at :
    (out : List Bucket) (o : Option ℕ) (key : Text) (i : ℕ)
    → i < length out
    → (get_or (add_at out o key 1) i zero_bucket).total
      ≡ (get_or out i zero_bucket).total + (if is_slot i o then 1 else 0)
unfolding add_at bump
total-add_at out none key i h = omega arith
total-add_at out (some j) key i h =
    ap (λ b. b.total) (get_or-modify out i j (bump key 1) zero_bucket)
    ∙ go (nat_beq j i) (ltb i (length out)) (ground arith)
  where
    go :
        (a b : Bool)
        → b ≡ true
        → Bucket.total (
            if a
            then (if b then bump key 1 (get_or out i zero_bucket) else zero_bucket)
            else get_or out i zero_bucket)
          ≡ (get_or out i zero_bucket).total + (if a then 1 else 0)
    go true true e = refl
    go true false e = absurd (cc)
    go false b e = omega arith

by-add_at :
    (out : List Bucket) (o : Option ℕ) (key wanted : Text) (i : ℕ)
    → i < length out
    → count_at wanted (get_or (add_at out o key 1) i zero_bucket).by
      ≡ count_at wanted (get_or out i zero_bucket).by
        + (if is_slot i o && (key == wanted) then 1 else 0)
unfolding add_at
by-add_at out none key wanted i h = omega arith
by-add_at out (some j) key wanted i h =
    ap (λ (b : Bucket). count_at wanted b.by) (get_or-modify out i j (bump key 1) zero_bucket)
    ∙ go (nat_beq j i) (ltb i (length out)) (ground arith)
  where
    bumped :
        (b : Bucket)
        → count_at wanted (bump key 1 b).by
          ≡ count_at wanted b.by + (if key == wanted then 1 else 0)
    bumped b =
        unfold bump in
        elim (Bool-cases (key == wanted)) [
          | inl e ↦ ground (
            arith,
            e,
            count_at-insert key wanted (count_at key b.by + 1) b.by,
            ap (λ k. count_at k b.by) ((text_beq_iff key wanted).0 e),
          )
          | inr e ↦ ground (arith, e, count_at-insert key wanted (count_at key b.by + 1) b.by)
        ]

    go :
        (a b : Bool)
        → b ≡ true
        → count_at wanted (
            Bucket.by (
              if a
              then (if b then bump key 1 (get_or out i zero_bucket) else zero_bucket)
              else get_or out i zero_bucket))
          ≡ count_at wanted (get_or out i zero_bucket).by + (if a && (key == wanted) then 1 else 0)
    go true true e = bumped (get_or out i zero_bucket)
    go true false e = absurd (cc)
    go false b e = omega arith

total-count_events :
    (split : Split) (from : Time) (width : ℕ) (es : List Event) (out : List Bucket) (i : ℕ)
    → i < length out
    → (get_or (count_events split from width es out) i zero_bucket).total
      ≡ (get_or out i zero_bucket).total + length (slot_events from width i es)
unfolding count_events
total-count_events split from width [] out i h = omega arith
total-count_events split from width (e ∷ es) out i h =
    let o : Option ℕ = slot from width e.time in
    let key : Text = bucket_key e split in
    ground (
      arith,
      total-count_events split from width es (add_at out o key 1) i
          (omega (arith, length-add_at out o key 1)),
      total-add_at out o key i h,
    )

by-count_events :
    (split : Split) (from : Time) (width : ℕ) (es : List Event) (out : List Bucket) (i : ℕ)
    (wanted : Text)
    → i < length out
    → count_at wanted (get_or (count_events split from width es out) i zero_bucket).by
      ≡ count_at wanted (get_or out i zero_bucket).by
        + length (with_key split wanted (slot_events from width i es))
unfolding count_events
by-count_events split from width [] out i wanted h = omega arith
by-count_events split from width (e ∷ es) out i wanted h =
    let o : Option ℕ = slot from width e.time in
    let key : Text = bucket_key e split in
    ground (
      arith,
      by-count_events split from width es (add_at out o key 1) i wanted
          (omega (arith, length-add_at out o key 1)),
      by-add_at out o key wanted i h,
    )

pub length-empty_buckets : (from : Time) (width n : ℕ) → length (empty_buckets from width n) ≡ n
unfolding empty_buckets
length-empty_buckets from width zero = refl
length-empty_buckets from width (suc n) = ap suc (length-empty_buckets (from + width) width n)

total-empty_buckets :
    (from : Time) (width n i : ℕ)
    → ((get_or (empty_buckets from width n) i zero_bucket).total ≡ 0)
      × ((get_or (empty_buckets from width n) i zero_bucket).by ≡ [])
unfolding empty_buckets
total-empty_buckets from width zero i = (refl, refl)
total-empty_buckets from width (suc n) zero = (refl, refl)
total-empty_buckets from width (suc n) (suc i) = total-empty_buckets (from + width) width n i

-- Each bucket of a histogram counts, in all and under each status or datacenter, exactly the events
-- between its start and the start of the next one; the first one also counts those that are before
-- the range by less than a width. An event past the end of the range counts where the last bucket
-- still covers it; there is nothing in a bucket past the last. At least one bucket is asked for, the
-- end is after the start, and twice the time between them still is a duration of 64 bits.
pub buckets_of-counts :
    (split : Split) (from to : Time) (buckets : ℕ) (es : List Event) (i : ℕ) (key : Text)
    → 1 ≤ buckets
    → from < to
    → 2 * (to - from) + buckets + second < duration_limit
    → (out : List Bucket) × ((buckets_of split from to buckets es ≡ some out)
        × (((get_or out i zero_bucket).total ≡ (
              if ltb i (length out)
              then length (in_bucket from (width_of (to - from) buckets) i es)
              else 0))
            × (count_at key (get_or out i zero_bucket).by ≡ (
                if ltb i (length out)
                then length
                    (with_key split key (in_bucket from (width_of (to - from) buckets) i es))
                else 0))))
buckets_of-counts split from to buckets es i key b l h =
    let width : ℕ = width_at from to buckets in
    let exact : span_of from to ≡ to - from = span_of-exact from to (omega (arith, h)) in
    let wide = width_of-bounds (span_of from to) buckets b (omega (arith, exact, h)) in
    let small = width_of-le (span_of from to) buckets (omega (arith, exact, h)) in
    let start : List Bucket = empty_buckets from width (count_of from to buckets) in
    let out : List Bucket = count_events split from width es start in
    let long : length out ≡ length start = length-count_events split from width es start in
    let empty = total-empty_buckets from width (count_of from to buckets) i in
    let none_yet : count_at key (get_or start i zero_bucket).by ≡ 0 =
      ap (count_at key) empty.1 ∙ (unfold lookup in refl) in
    (
      out,
      (
        buckets_of-some split from to buckets es l h,
        elim (Bool-cases (ltb i (length out))) [
          | inl t ↦
              let here : i < length start = ground (arith, long) in
              let inside : i < count_of from to buckets =
                omega (arith, here, length-empty_buckets from width (count_of from to buckets)) in
              let same : slot_events from width i es
                  ≡ in_bucket from (width_of (to - from) buckets) i es =
                slot_events-in_bucket from width i es (omega (arith, wide.0)) (
                  omega (
                    arith,
                    h,
                    exact,
                    small,
                    mul-le-mul_left {m = i + 1} {n = count_of from to buckets} width
                        (omega (arith, inside)),
                    div-add-mod (span_of from to + width - 1) width,
                  ))
                ∙ ap (λ d. in_bucket from (width_of d buckets) i es) exact in
              (
                rw t (
                    omega (
                      arith,
                      total-count_events split from width es start i here,
                      empty.0,
                      ap length same,
                    )),
                rw t (
                    omega (
                      arith,
                      by-count_events split from width es start i key here,
                      none_yet,
                      ap (λ l. length (with_key split key l)) same,
                    )),
              )
          | inr t ↦
              let past : get_or out i zero_bucket ≡ zero_bucket =
                get_or-past out i zero_bucket (ground arith) in
              (
                rw t (ap (λ b. b.total) past),
                rw t (ap (λ (b : Bucket). count_at key b.by) past ∙ (unfold lookup in refl)),
              )
        ],
      ),
    )
