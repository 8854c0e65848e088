-- ===== src/Base/Decimal/Reading.antt =====
-- A number that `%u` has printed is read back by `strtol`.
use lorawanatd_canarin.Base.Tests.{ltb, ◌==◌, Bool-cases}
use lorawanatd_canarin.Base.CString.{Bytes}
use lorawanatd_canarin.Base.Nul.{NoNul}
use lorawanatd_canarin.Base.Decimal.{
  strtol, print_digits, print_u, digits_value-print, digits_value-end, EndsNumber, StartsDigit,
  skip_space, digits_value, is_digit, is_space, long_of_pos,
}
use Prim.Native.Nat.{ℕ, zero, suc, ◌+◌, ◌/◌, ◌%◌, ◌^◌, ◌<◌}
use mathlib.Core.Path.{◌≡◌, refl, ◌∙◌}
use mathlib.Core.Logic.{inl, inr}
use mathlib.Core.Bool.{true, false}
use mathlib.Core.List.{[], ◌∷◌, ◌++◌}
use native.Mathlib.Omega.{arith}

print_digits-append :
    (f n : ℕ) (out s : Bytes) → print_digits f n out ++ s ≡ print_digits f n (out ++ s)
unfolding print_digits
print_digits-append zero n out s = refl
print_digits-append (suc f) n out s = elim (Bool-cases (n / 10 == 0)) [
  | inl small ↦ rw small refl
  | inr large ↦ rw large (print_digits-append f (n / 10) ((b'0' + n % 10) ∷ out) s)
]

pub print_u-append : (n : ℕ) (s : Bytes) → print_u n ++ s ≡ print_digits 10 n s
unfolding print_u
print_u-append n s = print_digits-append 10 n [] s

print_digits-StartsDigit :
    (f n : ℕ) (out : Bytes) → StartsDigit out → StartsDigit (print_digits f n out)
unfolding print_digits StartsDigit
print_digits-StartsDigit zero n out h = h
print_digits-StartsDigit (suc f) n out h = elim (Bool-cases (n / 10 == 0)) [
  | inl small ↦ rw small (digit (n % 10) (omega arith))
  | inr large ↦
      rw large
        (print_digits-StartsDigit f (n / 10) ((b'0' + n % 10) ∷ out) (digit (n % 10) (omega arith)))
]
  where
    digit : (d : ℕ) → d < 10 → is_digit (b'0' + d) ≡ true
    digit d h = ground arith

print_digits-digit : (f n : ℕ) (out : Bytes) → StartsDigit (print_digits (suc f) n out)
unfolding print_digits StartsDigit
print_digits-digit f n out = elim (Bool-cases (n / 10 == 0)) [
  | inl small ↦ rw small (digit (n % 10) (omega arith))
  | inr large ↦
      rw large
        (print_digits-StartsDigit f (n / 10) ((b'0' + n % 10) ∷ out) (digit (n % 10) (omega arith)))
]
  where
    digit : (d : ℕ) → d < 10 → is_digit (b'0' + d) ≡ true
    digit d h = ground arith

strtol-digits : (s : Bytes) → StartsDigit s → strtol s ≡ long_of_pos (digits_value 0 s)
unfolding strtol skip_space StartsDigit
strtol-digits [] h = absurd h
strtol-digits (c ∷ s) h =
    let blank : is_space c ≡ false = ground arith in
    let minus : (c == b'-') ≡ false = ground arith in
    let plus : (c == b'+') ≡ false = ground arith in rw blank (rw (minus, plus) refl)

-- The text of a number below 2^32, with anything behind it that does not begin with a digit, reads
-- as the number.
pub strtol-print_u :
    (n : ℕ) (s : Bytes)
    → n < 2 ^ 32
    → EndsNumber s
    → strtol (print_u n ++ s) ≡ record { value = n; erange = false }
strtol-print_u n s small ends =
    rw (print_u-append n s)
      (strtol-digits (print_digits 10 n s) (print_digits-digit 9 n s) ∙ rw (value) (rw below refl))
  where
    value : digits_value 0 (print_digits 10 n s) ≡ n
    value = digits_value-print 10 n s (omega arith) ∙ digits_value-end n s ends

    below : ltb n (2 ^ 63) ≡ true
    below = ground arith

NoNul-print_digits : (f n : ℕ) (out : Bytes) → NoNul out → NoNul (print_digits f n out)
unfolding print_digits
NoNul-print_digits zero n out h = h
NoNul-print_digits (suc f) n out h = elim (Bool-cases (n / 10 == 0)) [
  | inl small ↦ rw small (ground arith, h)
  | inr large ↦ rw large (NoNul-print_digits f (n / 10) ((b'0' + n % 10) ∷ out) (ground arith, h))
]

pub NoNul-print_u : (n : ℕ) → NoNul (print_u n)
unfolding print_u
NoNul-print_u n = NoNul-print_digits 10 n [] tt

pub print_u-digit : (n : ℕ) → n < 10 → print_u n ≡ (b'0' + n) ∷ []
unfolding print_u print_digits
print_u-digit n h = ground arith
