-- ===== src/Storage/Histogram/Slots.antt =====
-- Which bucket of storage/memory/storage.go a time falls into.
use native.Mathlib.Nat.{div-lt_iff_lt-mul}
use consul_timeline.Common.{
  ℕ, ◌+◌, ◌-◌, ◌*◌, ◌≤◌, ◌<◌, ◌≡◌, refl, ap, Bool, true, false, ◌&&◌, ◌||◌, Option, none, some,
  List, [], ◌∷◌, if◌then◌else◌, ltb, leb, nat_beq, keep, arith, Bool-cases, inl, inr,
}
use consul_timeline.Timeline.Event.{Event, Time}
use consul_timeline.Storage.Histogram.{duration_limit, saturate, slot}

-- Whether a slot is the one of a bucket.
abbrev pub is_slot : ℕ → Option ℕ → Bool
is_slot i none = false
is_slot i (some j) = nat_beq j i

-- Whether a time falls into a bucket: from where it starts to where the next one starts. Into the
-- first also falls what is before its start, by less than a width.
abbrev pub falls : Time → ℕ → ℕ → Time → Bool
falls from width i t =
    (leb (from + i * width) t && ltb t (from + (i + 1) * width))
    || (nat_beq i 0 && (ltb t from && ltb from (t + width)))

-- The events that fall into a bucket.
abbrev pub in_bucket : Time → ℕ → ℕ → List Event → List Event
in_bucket from width i es = keep (λ e. falls from width i e.time) es

abbrev pub slot_events : Time → ℕ → ℕ → List Event → List Event
slot_events from width i es = keep (λ e. is_slot i (slot from width e.time)) es

slot-falls :
    (from width i : ℕ) (t : Time)
    → 1 ≤ width
    → (i + 1) * width < duration_limit
    → is_slot i (slot from width t) ≡ falls from width i t
unfolding slot
slot-falls from width i t w h = elim (Bool-cases (leb from t)) [
  | inl e ↦
      let d : ℕ = saturate (t - from) in
      ground (
        arith,
        div-lt_iff_lt-mul {k = width} {x = d} {y = i} w,
        div-lt_iff_lt-mul {k = width} {x = d} {y = i + 1} w,
        h,
        e,
      )
  | inr e ↦ ground (arith, h, e)
]

pub slot_events-in_bucket :
    (from width i : ℕ) (es : List Event)
    → 1 ≤ width
    → (i + 1) * width < duration_limit
    → slot_events from width i es ≡ in_bucket from width i es
slot_events-in_bucket from width i [] w h = refl
slot_events-in_bucket from width i (e ∷ es) w h =
    go (is_slot i (slot from width e.time)) (falls from width i e.time)
      (slot-falls from width i e.time w h) (slot_events-in_bucket from width i es w h)
  where
    go :
        (a b : Bool)
        → a ≡ b
        → slot_events from width i es ≡ in_bucket from width i es
        → (if a then e ∷ slot_events from width i es else slot_events from width i es)
          ≡ (if b then e ∷ in_bucket from width i es else in_bucket from width i es)
    go true true p q = ap (◌∷◌ e) q
    go true false p q = absurd (cc)
    go false true p q = absurd (cc)
    go false false p q = q
