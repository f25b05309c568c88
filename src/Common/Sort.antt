-- ===== src/Common/Sort.antt =====
-- Go's `sort` package: `sort.Slice` by a comparison, and the binary search of `sort.Search`.
use Prim.Native.Nat.{ℕ, zero, suc, ◌+◌, ◌-◌, ◌/◌, ◌<◌, ◌≤◌}
use mathlib.Core.Path.{◌≡◌, refl, ap}
use mathlib.Core.Logic.{inl, inr}
use mathlib.Core.Bool.{Bool, true, false}
use mathlib.Core.List.{List, [], ◌∷◌, Perm}
use mathlib.Core.List.Perm
use native.Mathlib.Omega.{arith}
use consul_timeline.Common.Tests.{ltb, if◌then◌else◌, Bool-cases}
use consul_timeline.Common.Lists.{length, get_or, drop, keep, All}

module _ {A : Type 0} (less : A → A → Bool) where
  unfoldable pub insert_sorted : A → List A → List A
  insert_sorted x [] = x ∷ []
  insert_sorted x (y ∷ ys) = if less y x then y ∷ insert_sorted x ys else x ∷ (y ∷ ys)

  -- The result is the sorted permutation, which is unique where `less` is total on the elements.
  unfoldable pub sort : List A → List A
  unfolding insert_sorted
  sort [] = []
  sort (x ∷ xs) = insert_sorted x (sort xs)

  -- Every element stands strictly before those that follow it.
  abbrev pub IsSorted : List A → Type 0
  IsSorted [] = Unit
  IsSorted (x ∷ xs) = All (λ y. less x y ≡ true) xs × IsSorted xs

module _ {A : Type 0} (less : A → A → Bool) where
  pub All-insert_sorted {κ} :
      (P : A → Type κ) (x : A) (xs : List A) → P x → All P xs → All P (insert_sorted less x xs)
  unfolding insert_sorted
  All-insert_sorted P x [] p h = (p, tt)
  All-insert_sorted P x (y ∷ ys) p h = elim (Bool-cases (less y x)) [
    | inl e ↦ rw e (h.0, All-insert_sorted P x ys p h.1)
    | inr e ↦ rw e (p, h)
  ]

  pub All-sort {κ} : (P : A → Type κ) (xs : List A) → All P xs → All P (sort less xs)
  unfolding sort
  All-sort P [] h = tt
  All-sort P (x ∷ xs) h = All-insert_sorted P x (sort less xs) h.0 (All-sort P xs h.1)

  -- The elements that stand after a given one stay after it.
  module _ (trans : (x y z : A) → less x y ≡ true → less y z ≡ true → less x z ≡ true) where
    All-less :
        (x y : A) (xs : List A)
        → less x y ≡ true
        → All (λ z. less y z ≡ true) xs
        → All (λ z. less x z ≡ true) xs
    All-less x y [] h a = tt
    All-less x y (z ∷ zs) h a = (trans x y z h a.0, All-less x y zs h a.1)

    -- `Apart` says that an element can be compared with each of a list.
    pub insert_sorted-IsSorted :
        (x : A) (xs : List A)
        → All (λ y. less y x ≡ false → less x y ≡ true) xs
        → IsSorted less xs
        → IsSorted less (insert_sorted less x xs)
    unfolding insert_sorted
    insert_sorted-IsSorted x [] t s = (tt, tt)
    insert_sorted-IsSorted x (y ∷ ys) t s = elim (Bool-cases (less y x)) [
      | inl e ↦
          rw e (
            All-insert_sorted (λ z. less y z ≡ true) x ys e s.0,
            insert_sorted-IsSorted x ys t.1 s.1,
          )
      | inr e ↦ rw e ((t.0 e, All-less x y ys (t.0 e) s.0), s)
    ]

-- `sort.Search(n, f)`: the loop narrows [i, j) until it is empty.
unfoldable pub search_loop : ℕ → (ℕ → Bool) → ℕ → ℕ → ℕ
search_loop zero f i j = i
search_loop (suc fuel) f i j =
    let left = search_loop fuel f i ((i + j) / 2) in
    let right = search_loop fuel f ((i + j) / 2 + 1) j in
    if ltb i j then (if f ((i + j) / 2) then left else right) else i

-- The interval shrinks in every round, so `n` rounds are enough.
unfoldable pub binary_search : ℕ → (ℕ → Bool) → ℕ
unfolding search_loop
binary_search n f = search_loop n f 0 n

-- For a test that stays true up to `n`, the search ends at the first index where it is true.
pub search_loop_lem :
    (fuel : ℕ) (f : ℕ → Bool) (n i j : ℕ)
    → ((a b : ℕ) → a ≤ b → b < n → f a ≡ true → f b ≡ true)
    → i ≤ j
    → j ≤ n
    → j - i ≤ fuel
    → ((k : ℕ) → k < i → f k ≡ false)
    → ((k : ℕ) → j ≤ k → k < n → f k ≡ true)
    → let r = search_loop fuel f i j in
      (r ≤ n) × ((k : ℕ) → k < r → f k ≡ false) × ((k : ℕ) → r ≤ k → k < n → f k ≡ true)
unfolding search_loop
search_loop_lem zero f n i j mono ij jn h below above =
    (omega arith, below, λ k a b. above k (omega arith) b)
search_loop_lem (suc fuel) f n i j mono ij jn h below above = elim (Bool-cases (ltb i j)) [
  | inr e ↦ rw e (omega arith, below, λ k a b. above k (ground arith) b)
  | inl e ↦ elim (Bool-cases (f ((i + j) / 2))) [
    | inl t ↦
        rw (e, t)
          (search_loop_lem fuel f n i ((i + j) / 2) mono (ground arith) (ground arith)
            (ground arith) below (λ k a b. mono ((i + j) / 2) k a b t))
    | inr t ↦
        rw (e, t)
          (search_loop_lem fuel f n ((i + j) / 2 + 1) j mono (ground arith) jn (ground arith)
            (λ k a. elim (Bool-cases (f k)) [
              | inr u ↦ u
              | inl u ↦ let w = mono k ((i + j) / 2) (omega arith) (ground arith) u in absurd (cc)
            ])
            above)
  ]
]

module _ {A : Type 0} (less : A → A → Bool) (p : A → Bool) (d : A) where
  drop-keep :
      (xs : List A) (r : ℕ)
      → r ≤ length xs
      → ((k : ℕ) → k < r → p (get_or xs k d) ≡ false)
      → ((k : ℕ) → r ≤ k → k < length xs → p (get_or xs k d) ≡ true)
      → drop r xs ≡ keep p xs
  drop-keep [] zero h below above = refl
  drop-keep [] (suc r) h below above = refl
  drop-keep (x ∷ xs) zero h below above = rw (above 0 (omega arith) (omega arith)) (
      ap (◌∷◌ x) (
        drop-keep xs 0 (omega arith) (λ k b. absurd (omega arith))
          (λ k a b. above (suc k) (omega arith) (omega arith))))
  drop-keep (x ∷ xs) (suc r) h below above = rw (below 0 (omega arith)) (
      drop-keep xs r (omega arith) (λ k b. below (suc k) (omega arith))
        (λ k a b. above (suc k) (omega arith) (omega arith)))

  All-at : (P : A → Type 0) (xs : List A) (k : ℕ) → All P xs → k < length xs → P (get_or xs k d)
  All-at P [] k h b = absurd (omega arith)
  All-at P (x ∷ xs) zero h b = h.0
  All-at P (x ∷ xs) (suc k) h b = All-at P xs k h.1 (omega arith)

  module _ (later : (x y : A) → less x y ≡ true → p x ≡ true → p y ≡ true) where
    index_mono :
        (xs : List A) (a b : ℕ)
        → IsSorted less xs
        → a ≤ b
        → b < length xs
        → p (get_or xs a d) ≡ true
        → p (get_or xs b d) ≡ true
    index_mono [] a b s h l t = absurd (omega arith)
    index_mono (x ∷ xs) zero zero s h l t = t
    index_mono (x ∷ xs) zero (suc b) s h l t =
        later x (get_or xs b d) (All-at (λ y. less x y ≡ true) xs b s.0 (omega arith)) t
    index_mono (x ∷ xs) (suc a) zero s h l t = absurd (omega arith)
    index_mono (x ∷ xs) (suc a) (suc b) s h l t =
        index_mono xs a b s.1 (omega arith) (omega arith) t

    -- In a sorted list, with a test that stays true along the order, the elements from the index of
    -- `sort.Search` on are those that pass the test.
    pub drop-binary_search :
        (xs : List A)
        → IsSorted less xs
        → drop (binary_search (length xs) (λ i. p (get_or xs i d))) xs ≡ keep p xs
    unfolding binary_search
    drop-binary_search xs s =
        let (r, lo, hi) =
          search_loop_lem (length xs) (λ i. p (get_or xs i d)) (length xs) 0 (length xs)
            (λ a b. index_mono xs a b s) (omega arith) (omega arith) (omega arith)
            (λ k b. absurd (omega arith)) (λ k a b. absurd (omega arith)) in
        drop-keep xs (search_loop (length xs) (λ i. p (get_or xs i d)) 0 (length xs)) r lo hi

module _ {A : Type 0} (less : A → A → Bool) where
  insert_sorted-perm : (x : A) (xs : List A) → Perm (insert_sorted less x xs) (x ∷ xs)
  unfolding insert_sorted
  insert_sorted-perm x [] = Perm.refl (x ∷ [])
  insert_sorted-perm x (y ∷ ys) = elim (Bool-cases (less y x)) [
    | inl e ↦ rw e (Perm.trans (Perm.cons y (insert_sorted-perm x ys)) (Perm.swap x y ys))
    | inr e ↦ rw e (Perm.refl (x ∷ (y ∷ ys)))
  ]

  -- Sorting moves the elements and changes none.
  pub sort-perm : (xs : List A) → Perm (sort less xs) xs
  unfolding sort
  sort-perm [] = Perm.refl []
  sort-perm (x ∷ xs) = Perm.trans (insert_sorted-perm x (sort less xs)) (Perm.cons x (sort-perm xs))
