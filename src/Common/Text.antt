-- ===== src/Common/Text.antt =====
-- A Go string is a sequence of bytes: a list of numbers, with the functions of Go's `strings`
-- package that the program calls.
use Prim.Native.Nat.{ℕ, ◌-◌}
use Prim.Native.String.{String}
use Prim.Native.Char.{code}
use mathlib.Core.Path.{◌≡◌, refl}
use mathlib.Core.Logic.{◌↔◌, ◌≢◌}
use mathlib.Core.Bool.{Bool, true, false, ◌&&◌, ◌||◌}
use mathlib.Core.List.{List, [], ◌∷◌, ◌++◌}
use native.Mathlib.Omega.{arith}
use consul_timeline.Common.Tests.{Eq, ltb, leb, nat_beq, if◌then◌else◌}
use consul_timeline.Common.Lists.{length, drop, length-append, drop-append}

abbrev pub Text : Type 0
Text = List ℕ

-- The bytes of an ASCII literal.
abbrev pub bytes : String → Text
bytes String.[] = []
bytes (String.◌∷◌ letter rest) = code letter ∷ bytes rest

unfoldable pub text_beq : Text → Text → Bool
text_beq [] [] = true
text_beq [] (b ∷ t) = false
text_beq (a ∷ s) [] = false
text_beq (a ∷ s) (b ∷ t) = nat_beq a b && text_beq s t

pub text_beq_iff : (s t : Text) → (text_beq s t ≡ true) ↔ (s ≡ t)
unfolding text_beq
text_beq_iff [] [] = ground arith
text_beq_iff [] (b ∷ t) = ground arith
text_beq_iff (a ∷ s) [] = ground arith
text_beq_iff (a ∷ s) (b ∷ t) = ground (arith, text_beq_iff s t)

pub text_apart : (s t : Text) → text_beq s t ≡ false → s ≢ t
text_apart s t h e = ground (arith, text_beq_iff s t)

instance abbrev pub text_eq : Eq Text
text_eq = record { beq = text_beq; beq_iff = text_beq_iff }

-- The order of Go's `<` on strings: by bytes.
unfoldable pub text_ltb : Text → Text → Bool
text_ltb s [] = false
text_ltb [] (b ∷ t) = true
text_ltb (a ∷ s) (b ∷ t) = ltb a b || (nat_beq a b && text_ltb s t)

-- `strings.HasPrefix`.
unfoldable pub has_prefix : Text → Text → Bool
has_prefix s [] = true
has_prefix [] (p ∷ ps) = false
has_prefix (c ∷ s) (p ∷ ps) = nat_beq c p && has_prefix s ps

-- `strings.HasSuffix`: the last `length t` bytes are `t`.
unfoldable pub has_suffix : Text → Text → Bool
unfolding text_beq
has_suffix s t = leb (length t) (length s) && text_beq (drop (length s - length t) s) t

-- `strings.Contains`.
unfoldable pub contains : Text → Text → Bool
unfolding has_prefix
contains [] t = has_prefix [] t
contains (c ∷ s) t = if has_prefix (c ∷ s) t then true else contains s t

-- A prefix test finds the rest of the text.
pub has_prefix_iff : (s p : Text) → (has_prefix s p ≡ true) ↔ ((rest : Text) × (s ≡ p ++ rest))
unfolding has_prefix
has_prefix_iff s [] = (λ _. (s, refl), λ _. refl)
has_prefix_iff [] (p ∷ ps) = (λ h. absurd (cc), λ (r, e). absurd (cc))
has_prefix_iff (c ∷ s) (p ∷ ps) = (
  λ h. let (r, e) = (has_prefix_iff s ps).0 (ground arith) in (r, ground arith),
  λ (r, e).
      let k : has_prefix s ps ≡ true = (has_prefix_iff s ps).1 (r, ground arith) in ground arith,
)

-- A text has the suffix that was appended to it.
pub has_suffix-append : (s t : Text) → has_suffix (s ++ t) t ≡ true
unfolding has_suffix
has_suffix-append s t =
    let e : drop (length (s ++ t) - length t) (s ++ t) ≡ t =
      drop-append s t (length (s ++ t) - length t) (omega (arith, length-append s t)) in
    rw e (ground (arith, text_beq_iff t t, length-append s t))
