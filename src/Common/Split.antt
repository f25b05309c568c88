-- ===== src/Common/Split.antt =====
-- Go's `strings.Split` at one byte, and texts without that byte.
use Prim.Native.Nat.{ℕ, zero, suc, ◌+◌, ◌/◌, ◌%◌}
use mathlib.Core.Path.{◌≡◌, refl}
use mathlib.Core.Bool.{false}
use mathlib.Core.Logic.{inl, inr}
use mathlib.Core.List.{List, [], ◌∷◌, ◌++◌}
use native.Mathlib.Omega.{arith}
use consul_timeline.Common.Tests.{nat_beq, ltb, if◌then◌else◌, Bool-cases}
use consul_timeline.Common.Lists.{All}
use consul_timeline.Common.Text.{Text}
use consul_timeline.Common.Int.{ℤ, pos, negsuc}
use consul_timeline.Common.Decimal.{itoa, itoa_loop, itoa_int}

-- A byte before the first part.
abbrev pub prepend : ℕ → List Text → List Text
prepend c [] = (c ∷ []) ∷ []
prepend c (s ∷ ss) = (c ∷ s) ∷ ss

unfoldable pub split_on : ℕ → Text → List Text
split_on sep [] = [] ∷ []
split_on sep (c ∷ s) =
    let rest = split_on sep s in if nat_beq c sep then [] ∷ rest else prepend c rest

-- A text without a byte.
abbrev pub Lacks : ℕ → Text → Type 0
Lacks sep s = All (λ c. nat_beq c sep ≡ false) s

pub split_on-Lacks : (sep : ℕ) (s : Text) → Lacks sep s → split_on sep s ≡ s ∷ []
unfolding split_on
split_on-Lacks sep [] h = refl
split_on-Lacks sep (c ∷ s) h = rw (h.0, split_on-Lacks sep s h.1) refl

-- Two parts around a separator.
pub split_on-append :
    (sep : ℕ) (s t : Text) → Lacks sep s → Lacks sep t → split_on sep (s ++ (sep ∷ t)) ≡ s ∷ t ∷ []
unfolding split_on
split_on-append sep [] t h k = ground (arith, split_on-Lacks sep t k)
split_on-append sep (c ∷ s) t h k = rw (h.0, split_on-append sep s t h.1 k) refl

itoa_loop-Lacks : (f n : ℕ) (acc : Text) → Lacks b':' acc → Lacks b':' (itoa_loop f n acc)
unfolding itoa_loop
itoa_loop-Lacks zero n acc h = h
itoa_loop-Lacks (suc f) n acc h = elim (Bool-cases (ltb n 10)) [
  | inl e ↦ rw e (digit n, h)
  | inr e ↦ rw e (itoa_loop-Lacks f (n / 10) ((48 + n % 10) ∷ acc) (digit n, h))
]
  where
    digit : (k : ℕ) → nat_beq (48 + k % 10) b':' ≡ false
    digit k = ground arith

pub itoa_int-Lacks : (n : ℤ) → Lacks b':' (itoa_int n)
unfolding itoa_int itoa
itoa_int-Lacks (pos n) = itoa_loop-Lacks (suc n) n [] tt
itoa_int-Lacks (negsuc n) = (refl, itoa_loop-Lacks (suc (suc n)) (suc n) [] tt)
