-- ===== src/Timeline/Enum.antt =====
-- What the two enumerations of timeline/event.go share: a type over int8 whose names stand in an
-- array, printed by index and parsed by a search of the array.
use consul_timeline.Common.{
  ℕ, suc, ◌+◌, ◌<◌, ◌≡◌, refl, Bool, true, false, Option, none, some, List, [], ◌∷◌, arith, ltb,
  if◌then◌else◌, length, get_or, ◌==◌, inl, inr, Bool-cases,
}
use consul_timeline.Common.Text.{Text, text_eq, text_beq_iff, bytes}
use consul_timeline.Common.Int.{ℤ, pos, negsuc}

-- `names[v]`, and "unknown" where the index is out of range.
unfoldable pub name_of : List Text → ℤ → Text
name_of names (negsuc n) = bytes "unknown"
name_of names (pos n) = if ltb n (length names) then get_or names n [] else bytes "unknown"

-- The `for i, n := range names` loop: the first index from `i` on that holds the name.
unfoldable pub index_of : Text → List Text → ℕ → Option ℕ
index_of s [] i = none
index_of s (n ∷ names) i = if n == s then some i else index_of s names (i + 1)

-- The value at the index, or 0 and `false`.
unfoldable pub parse_name : List Text → Text → ℤ × Bool
parse_name names s = elim (index_of s names 0) [ none ↦ (pos 0, false) | some i ↦ (pos i, true) ]

-- What the search finds stands at that index.
index_of_sound :
    (s : Text) (names : List Text) (i k : ℕ)
    → index_of s names i ≡ some k
    → (j : ℕ) × (k ≡ i + j) × (j < length names) × (get_or names j [] ≡ s)
unfolding index_of
index_of_sound s [] i k h = absurd (cc)
index_of_sound s (n ∷ names) i k h = elim (Bool-cases (n == s)) [
  | inl e ↦ (0, ground arith, omega arith, (text_beq_iff n s).0 e)
  | inr e ↦
      let (j, p, q, r) = index_of_sound s names (i + 1) k (rw e at h) in
      (suc j, omega arith, omega arith, r)
]

-- A name that parses is the name of the value it parses to.
pub name_of-parse_name :
    (names : List Text) (s : Text) (v : ℤ) → parse_name names s ≡ (v, true) → name_of names v ≡ s
unfolding parse_name name_of
name_of-parse_name names s v h = go (index_of s names 0) refl
  where
    go : (o : Option ℕ) → index_of s names 0 ≡ o → name_of names v ≡ s
    go none e =
        absurd (let k : ◌≡◌ {A = ℤ × Bool} (pos 0, false) (v, true) = rw (e, parse_name) at h in cc)
    go (some i) e =
        let (j, p, q, r) = index_of_sound s names 0 i e in
        let k : v ≡ pos i =
          (let k : ◌≡◌ {A = ℤ × Bool} (pos i, true) (v, true) = rw (e, parse_name) at h in cc) in
        let b : i ≡ j = omega arith in rw (k, b) (ground (arith, r))
