-- ===== src/Common/Decimal.antt =====
-- Go's `strconv.Itoa` of a count and `strconv.Atoi`, over 64-bit `int`.
use Prim.Native.Nat.{ℕ, zero, suc, ◌+◌, ◌-◌, ◌*◌, ◌/◌, ◌%◌, ◌<◌}
use mathlib.Core.Path.{◌≡◌, sym, ap, ◌∙◌}
use mathlib.Core.Logic.{◌≢◌, inl, inr}
use mathlib.Core.Bool.{Bool, true, ◌&&◌}
use mathlib.Core.Option.{Option, none, some}
use mathlib.Core.List.{[], ◌∷◌}
use native.Mathlib.Omega.{arith}
use consul_timeline.Common.Tests.{ltb, leb, nat_beq, if◌then◌else◌, Bool-cases}
use consul_timeline.Common.Text.{Text}
use consul_timeline.Common.Int.{ℤ, pos, negsuc, sub_ℕ}

-- The digits of `n` before those already written, least significant first into `acc`.
unfoldable pub itoa_loop : ℕ → ℕ → Text → Text
itoa_loop zero n acc = acc
itoa_loop (suc f) n acc =
    let rest = itoa_loop f (n / 10) ((48 + n % 10) ∷ acc) in
    if ltb n 10 then (48 + n % 10) ∷ acc else rest

unfoldable pub itoa : ℕ → Text
unfolding itoa_loop
itoa n = itoa_loop (suc n) n []

-- `strconv.Itoa` of any `int`.
unfoldable pub itoa_int : ℤ → Text
unfolding itoa
itoa_int (pos n) = itoa n
itoa_int (negsuc n) = b'-' ∷ itoa (suc n)

abbrev pub is_digit : ℕ → Bool
is_digit c = leb b'0' c && leb c b'9'

unfoldable pub digits_value : Text → ℕ → Option ℕ
digits_value [] acc = some acc
digits_value (c ∷ s) acc = if is_digit c then digits_value s (acc * 10 + (c - 48)) else none

-- One digit at least.
unfoldable pub magnitude : Text → Option ℕ
unfolding digits_value
magnitude [] = none
magnitude (c ∷ s) = digits_value (c ∷ s) 0

abbrev pub int_limit : ℕ
int_limit = 9_223_372_036_854_775_808

abbrev positive : Option ℕ → Option ℤ
positive none = none
positive (some n) = if ltb n int_limit then some (pos n) else none

abbrev negative : Option ℕ → Option ℤ
negative none = none
negative (some n) = if leb n int_limit then some (sub_ℕ 0 n) else none

-- `none` is the error, for what is no number and for what does not fit in 64 bits.
unfoldable pub atoi : Text → Option ℤ
unfolding magnitude
atoi [] = none
atoi (c ∷ s) =
    if nat_beq c b'-'
    then negative (magnitude s)
    else if nat_beq c b'+'
    then positive (magnitude s)
    else positive (magnitude (c ∷ s))

digits_value-itoa_loop :
    (f n : ℕ) (acc : Text) → n < f → digits_value (itoa_loop f n acc) 0 ≡ digits_value acc n
unfolding digits_value itoa_loop
digits_value-itoa_loop zero n acc h = absurd (omega arith)
digits_value-itoa_loop (suc f) n acc h = elim (Bool-cases (ltb n 10)) [
  | inl e ↦ ground arith
  | inr e ↦
      rw e (digits_value-itoa_loop f (n / 10) ((48 + n % 10) ∷ acc) (ground arith) ∙ ground arith)
]

-- What is written begins with a digit.
itoa_loop-digit :
    (f n : ℕ) (acc : Text)
    → n < f
    → (c : ℕ) × (s : Text) × (itoa_loop f n acc ≡ c ∷ s) × (is_digit c ≡ true)
unfolding itoa_loop
itoa_loop-digit zero n acc h = absurd (omega arith)
itoa_loop-digit (suc f) n acc h = elim (Bool-cases (ltb n 10)) [
  | inl e ↦ (48 + n % 10, acc, rw e, ground arith)
  | inr e ↦
      let (c, s, p, q) = itoa_loop-digit f (n / 10) ((48 + n % 10) ∷ acc) (ground arith) in
      (c, s, rw e p, q)
]

atoi_of_digits :
    (n c : ℕ) (s t : Text)
    → n < int_limit
    → t ≡ c ∷ s
    → is_digit c ≡ true
    → digits_value t 0 ≡ some n
    → atoi t ≡ some (pos n)
unfolding atoi
atoi_of_digits n c s t h p q v =
    let w : digits_value (c ∷ s) 0 ≡ some n = rw p at v in rw p (ground (arith, w))

-- A number that fits in 64 bits is read back from what is written of it.
pub atoi-itoa : (n : ℕ) → n < int_limit → atoi (itoa n) ≡ some (pos n)
unfolding itoa digits_value
atoi-itoa n h =
    let (c, s, p, q) = itoa_loop-digit (suc n) n [] (omega arith) in
    atoi_of_digits n c s (itoa_loop (suc n) n []) h p q
      (digits_value-itoa_loop (suc n) n [] (omega arith))

pub itoa-ne-nil : (n : ℕ) → itoa n ≢ []
unfolding itoa
itoa-ne-nil n e =
    let (c, s, p, q) = itoa_loop-digit (suc n) n [] (omega arith) in
    let k : [] ≡ c ∷ s = sym e ∙ p in cc

-- An integer of 64 bits.
abbrev pub in_int64 : ℤ → Bool
in_int64 (pos n) = ltb n int_limit
in_int64 (negsuc n) = ltb n int_limit

magnitude-itoa : (n : ℕ) → magnitude (itoa n) ≡ some n
unfolding magnitude itoa digits_value
magnitude-itoa n =
    let (c, s, p, q) = itoa_loop-digit (suc n) n [] (omega arith) in
    ap magnitude p
    ∙ sym (ap (λ t. digits_value t 0) p)
    ∙ digits_value-itoa_loop (suc n) n [] (omega arith)

-- The same for an integer of either sign.
pub atoi-itoa_int : (n : ℤ) → in_int64 n ≡ true → atoi (itoa_int n) ≡ some n
unfolding atoi itoa_int
atoi-itoa_int (pos n) h = atoi-itoa n (ground arith)
atoi-itoa_int (negsuc n) h = ap negative (magnitude-itoa (suc n)) ∙ ground arith
