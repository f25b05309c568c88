-- ===== src/Common/Assoc.antt =====
-- A Go map as an association list, and the iteration order that Go leaves open.
use mathlib.Core.Path.{◌≡◌, refl, ap, subst, ◌∙◌}
use mathlib.Core.Bool.{false}
use mathlib.Core.Logic.{inl, inr}
use mathlib.Core.Option.{Option, none, some}
use mathlib.Core.List.{List, [], ◌∷◌, ◌++◌, append-nil}
use native.Mathlib.Omega.{arith}
use consul_timeline.Common.Tests.{Eq, ◌==◌, if◌then◌else◌, Bool-cases}
use consul_timeline.Common.Lists.{All, All-append, keep, keep-append}

module _ {K V : Type 0} ⦃e : Eq K⦄ where
  unfoldable pub lookup : (wanted : K) → List (K × V) → Option V
  lookup wanted [] = none
  lookup wanted ((key, value) ∷ rest) = if key == wanted then some value else lookup wanted rest

  unfoldable pub insert : K → V → List (K × V) → List (K × V)
  insert k v [] = (k, v) ∷ []
  insert k v ((j, w) ∷ m) = if j == k then (k, v) ∷ m else (j, w) ∷ insert k v m

  -- `delete(m, k)`.
  unfoldable pub delete : K → List (K × V) → List (K × V)
  delete k [] = []
  delete k ((j, w) ∷ m) = if j == k then delete k m else (j, w) ∷ delete k m

module _ {K V : Type 0} ⦃e : Eq K⦄ where
  pub lookup-insert :
      (new wanted : K) (value : V) (m : List (K × V))
      → lookup wanted (insert new value m) ≡ (if new == wanted then some value else lookup wanted m)
  unfolding insert lookup
  lookup-insert new wanted value [] = refl
  lookup-insert new wanted value ((key, old) ∷ rest) = ground (
    arith,
    lookup-insert new wanted value rest,
    e.beq_iff key wanted,
    e.beq_iff key new,
    e.beq_iff new wanted,
  )

  pub lookup-delete :
      (k j : K) (m : List (K × V)) → lookup j (delete k m) ≡ (if k == j then none else lookup j m)
  unfolding lookup delete
  lookup-delete k j [] = ground arith
  lookup-delete k j ((i, w) ∷ m) =
      ground (arith, e.beq_iff k j, e.beq_iff i k, e.beq_iff i j, lookup-delete k j m)

  -- No key stands twice.
  abbrev pub IsDistinct : List (K × V) → Type 0
  IsDistinct [] = Unit
  IsDistinct ((k, v) ∷ m) = (lookup k m ≡ none) × IsDistinct m

  pub insert-IsDistinct :
      (k : K) (v : V) (m : List (K × V)) → IsDistinct m → IsDistinct (insert k v m)
  unfolding insert lookup
  insert-IsDistinct k v [] d = (refl, tt)
  insert-IsDistinct k v ((j, w) ∷ m) d =
      ground (arith, e.beq_iff j k, e.beq_iff k j, lookup-insert k j v m, insert-IsDistinct k v m)

  pub delete-IsDistinct : (k : K) (m : List (K × V)) → IsDistinct m → IsDistinct (delete k m)
  unfolding delete
  delete-IsDistinct k [] d = tt
  delete-IsDistinct k ((j, w) ∷ m) d =
      ground (arith, e.beq_iff k j, lookup-delete k j m, delete-IsDistinct k m)

-- The order in which `range` visits a map: unspecified, but each entry comes exactly once.
pub record RangeOrder (K V : Type 0) ⦃e : Eq K⦄ : Type 0 where
  pub range : List (K × V) → List (K × V)
  pub lookup-range : (k : K) (m : List (K × V)) → lookup k (range m) ≡ lookup k m
  pub range-IsDistinct : (m : List (K × V)) → IsDistinct m → IsDistinct (range m)

-- A loop over the entries of a map that emits a list for each.
unfoldable pub for_each : {K V E : Type 0} → (K → V → List E) → List (K × V) → List E
for_each f [] = []
for_each f ((k, v) ∷ m) = f k v ++ for_each f m

pub All-for_each :
    {K V E : Type 0} (P : E → Type 0) (f : K → V → List E) (m : List (K × V))
    → ((k : K) (v : V) → All P (f k v))
    → All P (for_each f m)
unfolding for_each
All-for_each P f [] h = tt
All-for_each P f ((k, v) ∷ m) h = All-append P (f k v) (for_each f m) (h k v) (All-for_each P f m h)

-- Where what is emitted for a key carries that key, the part of the output with one key is what the
-- key's entry emits, wherever the loop visits it.
module _ {K E : Type 0} ⦃e : Eq K⦄ (tag : E → K) where
  -- The emitted elements that carry a key.
  abbrev pub with_key : K → List E → List E
  with_key k xs = keep (λ x. tag x == k) xs

  pub with_key-append :
      (k : K) (xs ys : List E) → with_key k (xs ++ ys) ≡ with_key k xs ++ with_key k ys
  with_key-append k xs ys = keep-append (λ x. tag x == k) xs ys

  with_key-All : (k : K) (xs : List E) → All (λ x. tag x ≡ k) xs → with_key k xs ≡ xs
  with_key-All k [] h = refl
  with_key-All k (x ∷ xs) h = rw ((e.beq_iff (tag x) k).1 h.0) (ap (◌∷◌ x) (with_key-All k xs h.1))

  with_key-nil :
      (j k : K) (xs : List E) → (j == k) ≡ false → All (λ x. tag x ≡ j) xs → with_key k xs ≡ []
  with_key-nil j k [] n h = refl
  with_key-nil j k (x ∷ xs) n h = rw (h.0, n) (with_key-nil j k xs n h.1)

module _ {K V E : Type 0} where
  -- What the loop emits for a key, given what the map holds there.
  abbrev pub at_key : (K → V → List E) → K → Option V → List E
  at_key f k none = []
  at_key f k (some v) = f k v

module _ {K V E : Type 0} ⦃e : Eq K⦄ (tag : E → K) (f : K → V → List E) where
  -- What is emitted for an entry carries its key.
  abbrev pub IsTagged : List (K × V) → Type 0
  IsTagged m = (j : K) (v : V) → lookup j m ≡ some v → All (λ x. tag x ≡ j) (f j v)

  tail-IsTagged :
      (j : K) (v : V) (m : List (K × V)) → lookup j m ≡ none → IsTagged ((j, v) ∷ m) → IsTagged m
  unfolding lookup
  tail-IsTagged j v m d t i w h = t i w (ground (arith, e.beq_iff j i))

  pub with_key-for_each :
      (m : List (K × V)) (k : K)
      → IsDistinct m
      → IsTagged m
      → with_key tag k (for_each f m) ≡ at_key f k (lookup k m)
  unfolding for_each lookup
  with_key-for_each [] k d t = refl
  with_key-for_each ((j, v) ∷ m) k d t =
      with_key-append tag k (f j v) (for_each f m)
      ∙ ap (◌++◌ (with_key tag k (f j v))) (with_key-for_each m k d.1 (tail-IsTagged j v m d.0 t))
      ∙ elim (Bool-cases (j == k)) [
        | inl h ↦
            let p : j ≡ k = (e.beq_iff j k).0 h in
            let q : lookup k m ≡ none = subst (λ i. lookup i m ≡ none) p d.0 in
            let own : with_key tag k (f j v) ≡ f k v =
              with_key-All tag k (f j v) (
                subst (λ i. All (λ x. tag x ≡ i) (f j v)) p
                  (t j v (rw ((e.beq_iff j j).1 refl) refl)))
              ∙ ap (λ i. f i v) p in
            rw (h, q, own) (append-nil (f k v))
        | inr h ↦
            rw (h, with_key-nil tag j k (f j v) h (t j v (rw ((e.beq_iff j j).1 refl) refl))) refl
      ]
