-- ===== src/Storage/Memory/Ring.antt =====
-- The ring buffer of storage/memory/storage.go keeps the most recent events, numbered in order.
use native.Mathlib.Nat.{mod-eq_of_lt, mod-eq-sub-mod}
use native.Mathlib.Decide.{dec_lt}
use mathlib.Core.List.{reverse, reverse-cons}
use consul_timeline.Common.{
  ℕ, zero, suc, ◌+◌, ◌-◌, ◌%◌, ◌≤◌, ◌<◌, ◌≡◌, ◌≢◌, ◌⊎◌, refl, sym, ap, ap₂, ◌∙◌, true, false, List,
  [], ◌∷◌, ◌++◌, ltb, length, get_or, take, arith, inl, inr, Bool-cases, length-set,
  get_or-set_self, get_or-set_ne, length-replicate, append_assoc, take-all,
}
use consul_timeline.Common.Int.{ℤ, pos, negsuc}
use consul_timeline.Timeline.Event.{Event, empty_event}
use consul_timeline.Storage.Memory.{
  Store, new, or_default, default_max_size, store_one, store_events, newest, history,
}

-- The representation invariant of the array and its indices.
pub record IsValid (s : Store) : Type 0 where
  pub next_in : s.next < length s.events
  pub size_in : s.size ≤ length s.events
  pub numbered : s.size ≤ s.next_id

-- The slot of the event stored `j` events before the last.
abbrev slot : ℕ → ℕ → ℕ → ℕ
slot cap next j = (next + cap - 1 - j) % cap

slot_eq :
    (cap next j : ℕ)
    → next < cap
    → j < cap
    → ((next < suc j) × (slot cap next j ≡ next + cap - 1 - j))
      ⊎ ((suc j ≤ next) × (slot cap next j ≡ next - 1 - j))
slot_eq cap next j h k = elim (dec_lt next (suc j)) [
  | yes p ↦ inl (p, mod-eq_of_lt (omega arith))
  | no p ↦ inr (
    omega arith,
    mod-eq-sub-mod {n = next + cap - 1 - j} {m = cap} (omega arith)
        ∙ mod-eq_of_lt {n = next + cap - 1 - j - cap} {m = cap} (omega arith)
        ∙ omega arith,
  )
]

step_next :
    (cap next : ℕ)
    → next < cap
    → ((next + 1 < cap) × ((next + 1) % cap ≡ next + 1))
      ⊎ ((next + 1 ≡ cap) × ((next + 1) % cap ≡ 0))
step_next cap next h = elim (dec_lt (next + 1) cap) [
  | yes p ↦ inl (p, mod-eq_of_lt p)
  | no p ↦ inr (
    omega arith,
    mod-eq-sub-mod {n = next + 1} {m = cap} (omega arith)
        ∙ mod-eq_of_lt {n = next + 1 - cap} {m = cap} (omega arith)
        ∙ omega arith,
  )
]

-- After a step the newest event stands where the step wrote, and the others one place further back.
slot_zero : (cap next : ℕ) → next < cap → slot cap ((next + 1) % cap) 0 ≡ next
slot_zero cap next h = ground (arith, step_next cap next h, slot_eq cap ((next + 1) % cap) 0)

slot-suc :
    (cap next j : ℕ)
    → next < cap
    → suc j < cap
    → (slot cap ((next + 1) % cap) (suc j) ≡ slot cap next j) × (slot cap next j ≢ next)
slot-suc cap next j h k =
    ground (arith, step_next cap next h, slot_eq cap ((next + 1) % cap) (suc j), slot_eq cap next j)

length-newest : (s : Store) (j k : ℕ) → length (newest s j k) ≡ k
unfolding newest
length-newest s j zero = refl
length-newest s j (suc k) = ap suc (length-newest s (suc j) k)

pub length-history : (s : Store) → length (history s) ≡ s.size
length-history s = length-newest s 0 s.size

take-newest : (s : Store) (j c k : ℕ) → c ≤ k → take c (newest s j k) ≡ newest s j c
unfolding newest
take-newest s j zero k h = refl
take-newest s j (suc c) zero h = absurd (omega arith)
take-newest s j (suc c) (suc k) h =
    ap (◌∷◌ (get_or s.events (slot (length s.events) s.next j) empty_event))
      (take-newest s (suc j) c k (omega arith))

take_pred :
    (cap : ℕ) (x : Event) (xs : List Event) → 0 < cap → take cap (x ∷ xs) ≡ x ∷ take (cap - 1) xs
take_pred zero x xs h = absurd (omega arith)
take_pred (suc c) x xs h = ap (λ k. x ∷ take k xs) (omega arith)

take-take : (c d : ℕ) (xs ys : List Event) → c ≤ d → take c (xs ++ take d ys) ≡ take c (xs ++ ys)
take-take zero d xs ys h = refl
take-take (suc c) zero xs ys h = absurd (omega arith)
take-take (suc c) (suc d) [] [] h = refl
take-take (suc c) (suc d) [] (y ∷ ys) h = ap (◌∷◌ y) (take-take c d [] ys (omega arith))
take-take (suc c) (suc d) (x ∷ xs) ys h = ap (◌∷◌ x) (take-take c (suc d) xs ys (omega arith))

positive_default : (n : ℤ) → 0 < or_default n default_max_size
positive_default (pos zero) = omega arith
positive_default (pos (suc n)) = omega arith
positive_default (negsuc n) = omega arith

-- The event as it is stored, under the next id.
abbrev pub with_id : ℕ → Event → Event
with_id n e = record e { id = n }

module _ (s : Store) (e : Event) (v : IsValid s) where
  newest-store_one :
      (j k : ℕ) → j + k < length s.events → newest (store_one s e) (suc j) k ≡ newest s j k
  unfolding newest store_one
  newest-store_one j zero h = refl
  newest-store_one j (suc k) h =
      let (p, q) = slot-suc (length s.events) s.next j v.next_in (omega arith) in
      ap₂ ◌∷◌
        (rw (length-set s.events s.next (with_id (s.next_id + 1) e), p)
          (get_or-set_ne s.events s.next _ _ empty_event (λ r. q (sym r))))
        (newest-store_one (suc j) k (omega arith))

  newest_event :
      (k : ℕ)
      → newest (store_one s e) 0 (suc k) ≡ with_id (s.next_id + 1) e ∷ newest (store_one s e) 1 k
  unfolding newest store_one
  newest_event k =
      ap (λ x. x ∷ newest (store_one s e) 1 k)
        (rw
          (
            length-set s.events s.next (with_id (s.next_id + 1) e),
            slot_zero (length s.events) s.next v.next_in,
          )
          (get_or-set_self s.events s.next _ empty_event v.next_in))

  size_below : ltb s.size (length s.events) ≡ true → (store_one s e).size ≡ suc s.size
  unfolding store_one
  size_below h = ground arith

  size_full :
      ltb s.size (length s.events) ≡ false → (store_one s e).size ≡ suc (length s.events - 1)
  unfolding store_one
  size_full h = ground (arith, v.next_in, v.size_in)

  -- Storing one event puts it in front, under the next id, and drops what exceeds the capacity.
  pub history-store_one :
      history (store_one s e) ≡ take (length s.events) (with_id (s.next_id + 1) e ∷ history s)
  history-store_one = elim (Bool-cases (ltb s.size (length s.events))) [
    | inl b ↦
        ap (newest (store_one s e) 0) (size_below b)
        ∙ (newest_event s.size
            ∙ ap (◌∷◌ stored) (newest-store_one 0 s.size (ground arith))
            ∙ sym (
                take-all (length s.events) (stored ∷ history s)
                  (ground (arith, length-newest s 0 s.size))))
    | inr b ↦
        ap (newest (store_one s e) 0) (size_full b)
        ∙ (newest_event (length s.events - 1)
            ∙ ap (◌∷◌ stored) (
                newest-store_one 0 (length s.events - 1) (omega (arith, v.next_in))
                ∙ sym (take-newest s 0 (length s.events - 1) s.size (ground arith)))
            ∙ sym (take_pred (length s.events) stored (history s) (omega (arith, v.next_in))))
  ]
    where
      stored : Event
      stored = with_id (s.next_id + 1) e

  pub store_one-IsValid : IsValid (store_one s e)
  unfolding store_one
  store_one-IsValid = record {
    next_in =
        rw (length-set s.events s.next (with_id (s.next_id + 1) e))
          (ground (arith, v.next_in, step_next (length s.events) s.next));
    size_in =
        rw (length-set s.events s.next (with_id (s.next_id + 1) e)) (ground (arith, v.size_in));
    numbered = ground (arith, v.numbered);
  }

  length-store_one : length (store_one s e).events ≡ length s.events
  unfolding store_one
  length-store_one = length-set s.events s.next (with_id (s.next_id + 1) e)

-- The ids that a batch gets, after `n`.
pub number : ℕ → List Event → List Event
number n [] = []
number n (e ∷ es) = with_id (n + 1) e ∷ number (n + 1) es

-- Storing a batch puts its events in front, newest first, under the next ids, and keeps as many of
-- the newest events as the array holds. The store is valid: its next slot and its size are within
-- the array, and no more events are stored than ids were given.
pub history-store_events :
    (s : Store) (es : List Event)
    → IsValid s
    → history (store_events s es)
      ≡ take (length s.events) (reverse (number s.next_id es) ++ history s)
unfolding store_events number store_one
history-store_events s [] v =
    sym (take-all (length s.events) (history s) (rw (length-newest s 0 s.size) v.size_in))
history-store_events s (e ∷ es) v =
    history-store_events (store_one s e) es (store_one-IsValid s e v)
    ∙ ap (λ c. take c (reverse (number (store_one s e).next_id es) ++ history (store_one s e)))
        (length-store_one s e v)
    ∙ ap (λ h. take (length s.events) (reverse (number (store_one s e).next_id es) ++ h))
        (history-store_one s e v)
    ∙ take-take (length s.events) (length s.events) _ _ (omega arith)
    ∙ ap (take (length s.events)) (regroup (number (s.next_id + 1) es) (history s))
  where
    regroup :
        (xs ys : List Event)
        → reverse xs ++ (with_id (s.next_id + 1) e ∷ ys)
          ≡ reverse (with_id (s.next_id + 1) e ∷ xs) ++ ys
    regroup xs ys = rw (reverse-cons (with_id (s.next_id + 1) e) xs, append_assoc)

pub store_events-IsValid : (s : Store) (es : List Event) → IsValid s → IsValid (store_events s es)
unfolding store_events
store_events-IsValid s [] v = v
store_events-IsValid s (e ∷ es) v =
    store_events-IsValid (store_one s e) es (store_one-IsValid s e v)

-- A new store is valid and empty, whatever the configured size.
pub new-IsValid : (max_size : ℤ) → IsValid (new max_size) × (history (new max_size) ≡ [])
unfolding new newest
new-IsValid max_size = (
  record {
    next_in =
        rw (length-replicate (or_default max_size default_max_size) empty_event)
          (positive_default max_size);
    size_in = omega arith;
    numbered = omega arith;
  },
  refl,
)
