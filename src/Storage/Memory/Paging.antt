-- ===== src/Storage/Memory/Paging.antt =====
-- Reading storage/memory/storage.go page by page: the cursor of a page continues exactly after it.
use consul_timeline.Common.{
  ℕ, zero, suc, ◌<◌, ◌≡◌, ◌≢◌, refl, sym, ap, subst, ◌∙◌, Bool, true, false, List, [], ◌∷◌,
  if◌then◌else◌, length, take, drop, get_or, keep, All, All-keep, All-map, arith, inl, inr,
  Bool-cases,
}
use consul_timeline.Common.Int.{ℤ, pos, negsuc}
use consul_timeline.Common.Sort.{IsSorted, drop-binary_search}
use consul_timeline.Timeline.Event.{Event, empty_event}
use consul_timeline.Storage.Query.{Query, Cursor, cursor_is_zero, is_zero}
use consul_timeline.Storage.Memory.{precedes, after_cursor, cursor_of, from_cursor, or_default}

after_cursor_later :
    (c : Cursor) (x y : Event)
    → precedes x y ≡ true
    → after_cursor c x ≡ true
    → after_cursor c y ≡ true
after_cursor_later c x y h k = ground arith

after_cursor_of : (x y : Event) → after_cursor (cursor_of x) y ≡ precedes x y
after_cursor_of x y = ground arith

precedes_irrefl : (x : Event) → precedes x x ≡ false
precedes_irrefl x = ground arith

precedes_asym : (x y : Event) → precedes x y ≡ true → precedes y x ≡ false
precedes_asym x y h = ground arith

-- The elements from the cursor on are those that stand after it.
from_cursor_lem :
    (q : Query) (all : List Event)
    → IsSorted precedes all
    → from_cursor q all
      ≡ (if cursor_is_zero q.cursor then all else keep (after_cursor q.cursor) all)
unfolding from_cursor
from_cursor_lem q all s =
    ap (λ l. if cursor_is_zero q.cursor then all else l)
      (drop-binary_search precedes (after_cursor q.cursor) empty_event (after_cursor_later q.cursor)
        all s)

keep-All : (p : Event → Bool) (es : List Event) → All (λ e. p e ≡ true) es → keep p es ≡ es
keep-All p [] h = refl
keep-All p (e ∷ es) h = rw h.0 (ap (◌∷◌ e) (keep-All p es h.1))

keep-keep :
    (p r : Event → Bool) (es : List Event)
    → ((e : Event) → p e ≡ true → r e ≡ true)
    → keep p (keep r es) ≡ keep p es
keep-keep p r [] h = refl
keep-keep p r (e ∷ es) h = ground (arith, h e, keep-keep p r es h)

keep-IsSorted :
    (p : Event → Bool) (es : List Event) → IsSorted precedes es → IsSorted precedes (keep p es)
keep-IsSorted p [] h = tt
keep-IsSorted p (e ∷ es) h = elim (Bool-cases (p e)) [
  | inl t ↦ rw t (All-keep (λ f. precedes e f ≡ true) p es h.0, keep-IsSorted p es h.1)
  | inr t ↦ rw t (keep-IsSorted p es h.1)
]

pub All-get_or :
    (P : Event → Type 0) (es : List Event) (k : ℕ)
    → All P es
    → k < length es
    → P (get_or es k empty_event)
All-get_or P [] k h b = absurd (omega arith)
All-get_or P (e ∷ es) zero h b = h.0
All-get_or P (e ∷ es) (suc k) h b = All-get_or P es k h.1 (omega arith)

-- In a sorted list, what stands after an element is the rest of the list behind it.
keep_after :
    (es : List Event) (k : ℕ)
    → IsSorted precedes es
    → k < length es
    → keep (after_cursor (cursor_of (get_or es k empty_event))) es ≡ drop (suc k) es
keep_after [] k s b = absurd (omega arith)
keep_after (e ∷ es) zero s b = rw (after_cursor_of e e ∙ precedes_irrefl e) (
    keep-All (after_cursor (cursor_of e)) es (
      All-map {P = λ f. precedes e f ≡ true} {Q = λ f. after_cursor (cursor_of e) f ≡ true}
        (λ f h. after_cursor_of e f ∙ h) es s.0))
keep_after (e ∷ es) (suc k) s b =
    rw
      (after_cursor_of (get_or es k empty_event) e
        ∙ precedes_asym e (get_or es k empty_event)
            (All-get_or (λ f. precedes e f ≡ true) es k s.0 (omega arith)))
      (keep_after es k s.1 (omega arith))

pub get_or-take :
    (n k : ℕ) (es : List Event) → k < n → get_or (take n es) k empty_event ≡ get_or es k empty_event
get_or-take zero k es h = absurd (omega arith)
get_or-take (suc n) k [] h = refl
get_or-take (suc n) zero (e ∷ es) h = refl
get_or-take (suc n) (suc k) (e ∷ es) h = get_or-take n k es (omega arith)

pub default_pos : (n : ℤ) → 0 < or_default n 100
default_pos (pos zero) = omega arith
default_pos (pos (suc n)) = omega arith
default_pos (negsuc n) = omega arith

keep_passes : (p : Event → Bool) (es : List Event) → All (λ e. p e ≡ true) (keep p es)
keep_passes p [] = tt
keep_passes p (e ∷ es) = elim (Bool-cases (p e)) [
  | inl t ↦ rw t (t, keep_passes p es)
  | inr t ↦ rw t (keep_passes p es)
]

-- The query that continues after an event.
abbrev pub continue_after : Query → Event → Query
continue_after q e = record q { cursor = cursor_of e }

module _ (q : Query) (all : List Event) (sorted : IsSorted precedes all) where
  from_cursor-IsSorted : IsSorted precedes (from_cursor q all)
  from_cursor-IsSorted =
      rw (from_cursor_lem q all sorted) (elim (Bool-cases (cursor_is_zero q.cursor)) [
        | inl z ↦ rw z sorted
        | inr z ↦ rw z (keep-IsSorted (after_cursor q.cursor) all sorted)
      ])

  pub All-from_cursor : (P : Event → Type 0) → All P all → All P (from_cursor q all)
  All-from_cursor P h =
      rw (from_cursor_lem q all sorted) (elim (Bool-cases (cursor_is_zero q.cursor)) [
        | inl z ↦ rw z h
        | inr z ↦ rw z (All-keep P (after_cursor q.cursor) all h)
      ])

  -- Continuing after the element at index `k` of what is left leaves what stands behind it.
  pub continue_lem :
      (k : ℕ)
      → k < length (from_cursor q all)
      → (get_or (from_cursor q all) k empty_event).time ≢ 0
      → from_cursor (continue_after q (get_or (from_cursor q all) k empty_event)) all
        ≡ drop (suc k) (from_cursor q all)
  continue_lem k b nz =
      from_cursor_lem (continue_after q (get_or (from_cursor q all) k empty_event)) all sorted
      ∙ at_time (get_or (from_cursor q all) k empty_event).time nz
      ∙ behind
    where
      last : Event
      last = get_or (from_cursor q all) k empty_event

      at_time :
          (t : ℕ)
          → t ≢ 0
          → (if is_zero t then all else keep (after_cursor (cursor_of last)) all)
            ≡ keep (after_cursor (cursor_of last)) all
      at_time zero h = absurd (h refl)
      at_time (suc t) h = ground arith

      behind : keep (after_cursor (cursor_of last)) all ≡ drop (suc k) (from_cursor q all)
      behind = elim (Bool-cases (cursor_is_zero q.cursor)) [
        | inl z ↦
            ap (keep (after_cursor (cursor_of last))) (sym (whole z))
            ∙ keep_after (from_cursor q all) k from_cursor-IsSorted b
        | inr z ↦
            sym (
              keep-keep (after_cursor (cursor_of last)) (after_cursor q.cursor) all (λ e h.
                after_cursor_later q.cursor last e (sym (after_cursor_of last e) ∙ h) (reached z)))
            ∙ ap (keep (after_cursor (cursor_of last))) (sym (part z))
            ∙ keep_after (from_cursor q all) k from_cursor-IsSorted b
      ]
        where
          whole : cursor_is_zero q.cursor ≡ true → from_cursor q all ≡ all
          whole z =
              from_cursor_lem q all sorted
              ∙ ap (λ t. if t then all else keep (after_cursor q.cursor) all) z

          part :
              cursor_is_zero q.cursor ≡ false → from_cursor q all ≡ keep (after_cursor q.cursor) all
          part z =
              from_cursor_lem q all sorted
              ∙ ap (λ t. if t then all else keep (after_cursor q.cursor) all) z

          reached : cursor_is_zero q.cursor ≡ false → after_cursor q.cursor last ≡ true
          reached z =
              All-get_or (λ e. after_cursor q.cursor e ≡ true) (from_cursor q all) k
                (subst (All (λ e. after_cursor q.cursor e ≡ true)) (sym (part z))
                  (keep_passes (after_cursor q.cursor) all))
                b
