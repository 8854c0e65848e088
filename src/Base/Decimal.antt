-- ===== src/Base/Decimal.antt =====
-- `strtol(_, NULL, 10)` and `%u`. A `long` is its 64-bit pattern.
pub mod Reading
use lorawanatd_canarin.Base.Tests.{ltb, leb, ◌==◌, if◌then◌else◌, Bool-cases}
use lorawanatd_canarin.Base.CString.{Bytes}
use Prim.Native.Nat.{ℕ, zero, suc, ◌+◌, ◌-◌, ◌*◌, ◌/◌, ◌%◌, ◌^◌, ◌<◌}
use mathlib.Core.Path.{◌≡◌, refl, ap, ◌∙◌}
use mathlib.Core.Logic.{inl, inr}
use mathlib.Core.Bool.{Bool, true, false, ◌&&◌, ◌||◌}
use mathlib.Core.List.{[], ◌∷◌}
use native.Mathlib.Nat.{pow-suc}
use native.Mathlib.Omega.{arith}

-- `errno` is only ever set to ERANGE here.
pub record Strtol : Type 0 where
  pub value : ℕ
  pub erange : Bool

abbrev is_digit : ℕ → Bool
is_digit c = leb b'0' c && leb c b'9'

-- `isspace`: tab, newline, vertical tab, form feed, carriage return and the space
abbrev is_space : ℕ → Bool
is_space c = (leb 9 c && leb c 13) || c == 32

skip_space : Bytes → Bytes
skip_space [] = []
skip_space (c ∷ s) = if is_space c then skip_space s else c ∷ s

digits_value : ℕ → Bytes → ℕ
digits_value n [] = n
digits_value n (c ∷ s) =
    let rest = digits_value (n * 10 + (c - b'0')) s in if is_digit c then rest else n

abbrev long_of_pos : ℕ → Strtol
long_of_pos n =
    if ltb n (2 ^ 63)
    then record { value = n; erange = false }
    else record { value = 2 ^ 63 - 1; erange = true }

abbrev long_of_neg : ℕ → Strtol
long_of_neg n =
    if leb n (2 ^ 63)
    then record { value = (2 ^ 64 - n) % 2 ^ 64; erange = false }
    else record { value = 2 ^ 63; erange = true }

abbrev signed_value : Bytes → Strtol
signed_value [] = long_of_pos 0
signed_value (c ∷ s) =
    if c == b'-'
    then long_of_neg (digits_value 0 s)
    else if c == b'+'
    then long_of_pos (digits_value 0 s)
    else long_of_pos (digits_value 0 (c ∷ s))

unfoldable pub strtol : Bytes → Strtol
unfolding skip_space digits_value
strtol s = signed_value (skip_space s)

-- The decimal digits of `n` in front of `out`, on fuel for as many digits.
unfoldable pub print_digits : ℕ → ℕ → Bytes → Bytes
print_digits zero n out = out
print_digits (suc f) n out =
    let rest = print_digits f (n / 10) ((b'0' + n % 10) ∷ out) in
    if n / 10 == 0 then (b'0' + n % 10) ∷ out else rest

-- `%u`: an `unsigned int` has at most ten digits.
unfoldable pub print_u : ℕ → Bytes
unfolding print_digits
print_u n = print_digits 10 n []

digits_value-step :
    (n c : ℕ) (s : Bytes) → c < 10 → digits_value n ((b'0' + c) ∷ s) ≡ digits_value (n * 10 + c) s
unfolding digits_value
digits_value-step n c s h =
    let e : n * 10 + (b'0' + c - b'0') ≡ n * 10 + c = omega arith in rw e (ground arith)

digits_value-print :
    (f n : ℕ) (out : Bytes)
    → n < 10 ^ f
    → digits_value 0 (print_digits f n out) ≡ digits_value n out
unfolding print_digits
digits_value-print zero n out h = let e : n ≡ 0 = omega arith in rw e
digits_value-print (suc f) n out h = elim (Bool-cases (n / 10 == 0)) [
  | inl small ↦
      rw small (
        digits_value-step 0 (n % 10) out (omega arith)
        ∙ ap (λ m. digits_value m out) (ground arith))
  | inr large ↦ rw large (
      digits_value-print f (n / 10) ((b'0' + n % 10) ∷ out) (omega (arith, pow-suc 10 f, h))
      ∙ digits_value-step (n / 10) (n % 10) out (omega arith)
      ∙ ap (λ m. digits_value m out) (omega arith))
]

-- The text after a number does not begin with a digit.
abbrev pub EndsNumber : Bytes → Type 0
EndsNumber [] = Unit
EndsNumber (c ∷ s) = is_digit c ≡ false

digits_value-end : (n : ℕ) (s : Bytes) → EndsNumber s → digits_value n s ≡ n
unfolding digits_value
digits_value-end n [] h = refl
digits_value-end n (c ∷ s) h = rw h

-- The first byte that `print_digits` leaves is a digit.
StartsDigit : Bytes → Type 0
StartsDigit [] = ⊥
StartsDigit (c ∷ s) = is_digit c ≡ true
