-- ===== src/Common/Counts.antt =====
-- A Go map from keys to numbers, in which the occurrences of keys are counted.
use Prim.Native.Nat.{ℕ, ◌+◌}
use mathlib.Core.Path.{◌≡◌, ap, subst}
use mathlib.Core.Logic.{inl, inr}
use mathlib.Core.Option.{none, some}
use mathlib.Core.List.{List, [], ◌∷◌}
use native.Mathlib.Omega.{arith}
use consul_timeline.Common.Tests.{Eq, ◌==◌, if◌then◌else◌, Bool-cases}
use consul_timeline.Common.Lists.{All, keep, length}
use consul_timeline.Common.Assoc.{lookup, insert, lookup-insert, IsDistinct, insert-IsDistinct}

module _ {K : Type 0} ⦃e : Eq K⦄ where
  -- `counts[k]`, which is 0 where the key is missing.
  abbrev pub count_at : K → List (K × ℕ) → ℕ
  count_at k m = elim (lookup k m) [ none ↦ 0 | some n ↦ n ]

  -- The loops that count: `counts[k]++` for each key.
  unfoldable pub count_values : List (K × ℕ) → List K → List (K × ℕ)
  unfolding lookup insert
  count_values m [] = m
  count_values m (k ∷ ks) = count_values (insert k (count_at k m + 1) m) ks

  -- How often a key occurs.
  abbrev pub occurrences : K → List K → ℕ
  occurrences k ks = length (keep (λ j. j == k) ks)

  -- The sum of the counts.
  abbrev pub total : List (K × ℕ) → ℕ
  total [] = 0
  total ((k, n) ∷ m) = n + total m

module _ {K : Type 0} ⦃e : Eq K⦄ where
  pub count_at-insert :
      (j k : K) (n : ℕ) (m : List (K × ℕ))
      → count_at k (insert j n m) ≡ (if j == k then n else count_at k m)
  unfolding lookup insert
  count_at-insert j k n m = ground (arith, lookup-insert j k n m)

  pub count_at-count_values :
      (k : K) (ks : List K) (m : List (K × ℕ))
      → count_at k (count_values m ks) ≡ count_at k m + occurrences k ks
  unfolding count_values
  count_at-count_values k [] m = omega arith
  count_at-count_values k (j ∷ ks) m = elim (Bool-cases (j == k)) [
    | inl b ↦ ground (
      arith,
      b,
      ap (λ i. count_at i m) ((e.beq_iff j k).0 b),
      count_at-insert j k (count_at j m + 1) m,
      count_at-count_values k ks (insert j (count_at j m + 1) m),
    )
    | inr b ↦ ground (
      arith,
      b,
      count_at-insert j k (count_at j m + 1) m,
      count_at-count_values k ks (insert j (count_at j m + 1) m),
    )
  ]

  pub count_values-IsDistinct :
      (ks : List K) (m : List (K × ℕ)) → IsDistinct m → IsDistinct (count_values m ks)
  unfolding count_values
  count_values-IsDistinct [] m d = d
  count_values-IsDistinct (k ∷ ks) m d =
      count_values-IsDistinct ks (insert k (count_at k m + 1) m)
        (insert-IsDistinct k (count_at k m + 1) m d)

  pub lookup-count_values :
      (k : K) (n : ℕ) (ks : List K) → lookup k (count_values [] ks) ≡ some n → n ≡ occurrences k ks
  unfolding lookup
  lookup-count_values k n ks h =
      let p : count_at k (count_values [] ks) ≡ n = ap (λ o. elim o [ none ↦ 0 | some i ↦ i ]) h in
      omega (arith, p, count_at-count_values k ks [])

  -- An entry that tells how often its key occurs.
  abbrev pub IsCounted : List K → K × ℕ → Type 0
  IsCounted ks (k, n) = n ≡ occurrences k ks

  pub All-IsCounted :
      (ks : List K) (m : List (K × ℕ))
      → IsDistinct m
      → ((k : K) (n : ℕ) → lookup k m ≡ some n → n ≡ occurrences k ks)
      → All (IsCounted ks) m
  unfolding lookup
  All-IsCounted ks [] d h = tt
  All-IsCounted ks ((k, n) ∷ m) d h = (
    h k n (ground (arith, e.beq_iff k k)),
    All-IsCounted ks m d.1 (λ j i p. h j i (ground (arith, e.beq_iff k j, d.0))),
  )

  total-insert :
      (k : K) (n : ℕ) (m : List (K × ℕ)) → total (insert k n m) + count_at k m ≡ total m + n
  unfolding insert lookup
  total-insert k n [] = omega arith
  total-insert k n ((j, i) ∷ m) = elim (Bool-cases (j == k)) [
    | inl b ↦ ground (arith, b)
    | inr b ↦ ground (arith, b, total-insert k n m)
  ]

  -- Every occurrence is counted once.
  pub total-count_values :
      (ks : List K) (m : List (K × ℕ)) → total (count_values m ks) ≡ total m + length ks
  unfolding count_values
  total-count_values [] m = omega arith
  total-count_values (k ∷ ks) m = omega (
    arith,
    total-insert k (count_at k m + 1) m,
    total-count_values ks (insert k (count_at k m + 1) m),
  )

module _ {K : Type 0} ⦃e : Eq K⦄ where
  -- Every key of the map is one of those counted.
  pub All-count_values :
      (P : K → Type 0) (ks : List K) (m : List (K × ℕ)) (k : K) (n : ℕ)
      → All P ks
      → ((i : ℕ) → lookup k m ≡ some i → P k)
      → lookup k (count_values m ks) ≡ some n
      → P k
  unfolding count_values
  All-count_values P [] m k n h old l = old n l
  All-count_values P (j ∷ ks) m k n h old l =
      All-count_values P ks (insert j (count_at j m + 1) m) k n h.1
        (λ i q. elim (Bool-cases (j == k)) [
          | inl b ↦ subst P ((e.beq_iff j k).0 b) h.0
          | inr b ↦ old i (ground (arith, lookup-insert j k (count_at j m + 1) m, b, q))
        ])
        l

  -- What holds of all that can be looked up holds of all entries.
  pub All-lookup :
      (P : K × ℕ → Type 0) (m : List (K × ℕ))
      → IsDistinct m
      → ((k : K) (n : ℕ) → lookup k m ≡ some n → P (k, n))
      → All P m
  unfolding lookup
  All-lookup P [] d h = tt
  All-lookup P ((k, n) ∷ m) d h = (
    h k n (ground (arith, e.beq_iff k k)),
    All-lookup P m d.1 (λ j i p. h j i (ground (arith, e.beq_iff k j, d.0))),
  )
