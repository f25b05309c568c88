-- ===== src/Storage/Memory/Order.antt =====
-- The newest-first order of storage/memory/storage.go: ids are distinct, so what `matching` returns
-- is strictly sorted.
use mathlib.Core.List.{Perm}
use consul_timeline.Common.{
  ℕ, zero, suc, ◌+◌, ◌-◌, ◌≤◌, ◌<◌, ◌≡◌, ◌≢◌, ◌⊎◌, refl, sym, subst, Bool, true, false, List, [],
  ◌∷◌, length, take, keep, All, All-keep, All-map, arith, inl, inr, Bool-cases,
}
use consul_timeline.Common.Text.{Text}
use consul_timeline.Common.Sort.{sort, IsSorted, insert_sorted-IsSorted, All-sort, sort-perm}
use consul_timeline.Timeline.Event.{Event}
use consul_timeline.Storage.Query.{Query}
use consul_timeline.Storage.Match.{matches}
use consul_timeline.Storage.Memory.{Store, store_one, store_events, history, precedes, matching}
use consul_timeline.Storage.Memory.Ring.{
  IsValid, with_id, history-store_one, store_one-IsValid, length-history,
}

-- The ids fall by one from `n` on.
abbrev pub IsNumbered : ℕ → List Event → Type 0
IsNumbered n [] = Unit
IsNumbered n (e ∷ es) = (e.id ≡ n) × IsNumbered (n - 1) es

-- The array is in order, and the last stored event has the last given id.
pub record IsStore (s : Store) : Type 0 where
  pub valid : IsValid s
  pub ids : IsNumbered s.next_id (history s)

take-IsNumbered : (c n : ℕ) (es : List Event) → IsNumbered n es → IsNumbered n (take c es)
take-IsNumbered zero n es h = tt
take-IsNumbered (suc c) n [] h = tt
take-IsNumbered (suc c) n (e ∷ es) h = (h.0, take-IsNumbered c (n - 1) es h.1)

-- Storing an event keeps the invariant.
pub store_one-IsStore : (s : Store) (e : Event) → IsStore s → IsStore (store_one s e)
unfolding store_one
store_one-IsStore s e v = record {
  valid = store_one-IsValid s e v.valid;
  ids = subst (IsNumbered (s.next_id + 1)) (sym (history-store_one s e v.valid)) (
      take-IsNumbered (length s.events) (s.next_id + 1) (with_id (s.next_id + 1) e ∷ history s)
        (refl, subst (λ n. IsNumbered n (history s)) (omega arith) v.ids));
}

-- Storing a batch keeps the store in order: the next slot and the size stay within the array, and
-- the stored events, newest first, have consecutive ids down from the last one given. The store is
-- in order before.
pub store_events-IsStore : (s : Store) (es : List Event) → IsStore s → IsStore (store_events s es)
unfolding store_events
store_events-IsStore s [] v = v
store_events-IsStore s (e ∷ es) v =
    store_events-IsStore (store_one s e) es (store_one-IsStore s e v)

abbrev DistinctIds : List Event → Type 0
DistinctIds [] = Unit
DistinctIds (e ∷ es) = All (λ f. f.id ≢ e.id) es × DistinctIds es

numbered_below : (n : ℕ) (es : List Event) → IsNumbered n es → All (λ f. f.id ≤ n) es
numbered_below n [] h = tt
numbered_below n (e ∷ es) h = (
  omega (arith, h.0),
  All-map {P = λ f. f.id ≤ n - 1} {Q = λ f. f.id ≤ n} (λ f b. omega arith) es
      (numbered_below (n - 1) es h.1),
)

numbered-DistinctIds : (n : ℕ) (es : List Event) → length es ≤ n → IsNumbered n es → DistinctIds es
numbered-DistinctIds n [] b h = tt
numbered-DistinctIds n (e ∷ es) b h = (
  All-map {P = λ f. f.id ≤ n - 1} {Q = λ f. f.id ≢ e.id} (λ f k. omega (arith, h.0)) es
      (numbered_below (n - 1) es h.1),
  numbered-DistinctIds (n - 1) es (omega arith) h.1,
)

keep-DistinctIds : (p : Event → Bool) (es : List Event) → DistinctIds es → DistinctIds (keep p es)
keep-DistinctIds p [] h = tt
keep-DistinctIds p (e ∷ es) h = elim (Bool-cases (p e)) [
  | inl t ↦ rw t (All-keep (λ f. f.id ≢ e.id) p es h.0, keep-DistinctIds p es h.1)
  | inr t ↦ rw t (keep-DistinctIds p es h.1)
]

pub precedes_trans :
    (x y z : Event) → precedes x y ≡ true → precedes y z ≡ true → precedes x z ≡ true
precedes_trans x y z h k = ground arith

precedes_total : (x y : Event) → y.id ≢ x.id → precedes y x ≡ false → precedes x y ≡ true
precedes_total x y h k = ground arith

sort-IsSorted : (es : List Event) → DistinctIds es → IsSorted precedes (sort precedes es)
unfolding sort
sort-IsSorted [] h = tt
sort-IsSorted (e ∷ es) h =
    insert_sorted-IsSorted precedes precedes_trans e (sort precedes es)
      (All-sort precedes (λ y. precedes y e ≡ false → precedes e y ≡ true) es
        (All-map {P = λ f. f.id ≢ e.id} {Q = λ y. precedes y e ≡ false → precedes e y ≡ true}
          (λ y k. precedes_total e y k) es h.0))
      (sort-IsSorted es h.1)

-- Strictly newest first: every event is earlier than those before it or, at the same instant, has a
-- smaller id.
abbrev pub IsNewer : Event → Event → Type 0
IsNewer x y = (y.time < x.time) ⊎ ((y.time ≡ x.time) × (y.id < x.id))

abbrev pub AreNewestFirst : List Event → Type 0
AreNewestFirst [] = Unit
AreNewestFirst (x ∷ es) = All (IsNewer x) es × AreNewestFirst es

precedes-IsNewer : (x y : Event) → precedes x y ≡ true → IsNewer x y
precedes-IsNewer x y h = ground arith

IsSorted-AreNewestFirst : (es : List Event) → IsSorted precedes es → AreNewestFirst es
IsSorted-AreNewestFirst [] h = tt
IsSorted-AreNewestFirst (x ∷ es) h = (
  All-map {P = λ y. precedes x y ≡ true} {Q = IsNewer x} (λ y k. precedes-IsNewer x y k) es h.0,
  IsSorted-AreNewestFirst es h.1,
)

pub matching-IsSorted :
    (to_lower : Text → Text) (s : Store) (q : Query)
    → IsStore s
    → IsSorted precedes (matching to_lower s q)
unfolding matching
matching-IsSorted to_lower s q v = sort-IsSorted (keep (λ e. matches to_lower e q) (history s)) (
    keep-DistinctIds _ (history s) (
      numbered-DistinctIds s.next_id (history s) (omega (arith, length-history s, v.valid.numbered))
        v.ids))

-- In a store in order, what `matching` returns are the stored events that satisfy the query, each
-- as often as it is stored, newest first: each event is strictly later than those after it or, at
-- the same instant, has a greater id.
pub matching-AreNewestFirst_perm :
    (to_lower : Text → Text) (s : Store) (q : Query)
    → IsStore s
    → AreNewestFirst (matching to_lower s q)
      × Perm (matching to_lower s q) (keep (λ e. matches to_lower e q) (history s))
unfolding matching
matching-AreNewestFirst_perm to_lower s q v = (
  IsSorted-AreNewestFirst (matching to_lower s q) (matching-IsSorted to_lower s q v),
  sort-perm precedes (keep (λ e. matches to_lower e q) (history s)),
)
