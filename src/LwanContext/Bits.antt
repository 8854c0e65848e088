-- ===== src/LwanContext/Bits.antt =====
-- The dirty bits, each by itself.
use lorawanatd_canarin.Base.{
  ℕ, zero, suc, ◌/◌, ◌%◌, ◌^◌, ◌≤◌, ◌<◌, ◌≡◌, refl, ap, sym, ◌∙◌, true, false, inl, inr, Bool-cases,
  arith, ◌==◌, ltb,
}
use lorawanatd_canarin.LwanContext.{test_bit, set_bit, clear_bit}
use native.Mathlib.Nat.{pow-suc, pow-succ', div-div-eq-div-mul, div-eq_of_lt}

half_pow : (d i : ℕ) → d / 2 ^ suc i ≡ d / 2 / 2 ^ i
half_pow d i = ap (λ n. d / n) (pow-succ' 2 i) ∙ sym (div-div-eq-div-mul d 2 (2 ^ i))

test_bit-suc : (d i : ℕ) → test_bit d (suc i) ≡ test_bit (d / 2) i
test_bit-suc d i = ap (λ n. n % 2 == 1) (half_pow d i)

test_bit_at_least : (d i : ℕ) → test_bit d i ≡ true → 2 ^ i ≤ d
test_bit_at_least d i h = elim (Bool-cases (ltb d (2 ^ i))) [
  | inl below ↦
      let small : d < 2 ^ i = ground arith in
      let none' : d / 2 ^ i ≡ 0 = div-eq_of_lt small in absurd (ground (arith, none'))
  | inr above ↦ ground arith
]

clear_half : (d i : ℕ) → clear_bit d (suc i) / 2 ≡ clear_bit (d / 2) i
clear_half d i = elim (Bool-cases (test_bit d (suc i))) [
  | inl on ↦ rw (on, sym (test_bit-suc d i) ∙ on) (omega (arith, pow-suc 2 i))
  | inr off ↦ rw (off, sym (test_bit-suc d i) ∙ off) refl
]

clear_parity : (d i : ℕ) → clear_bit d (suc i) % 2 ≡ d % 2
clear_parity d i = elim (Bool-cases (test_bit d (suc i))) [
  | inl on ↦ let le = test_bit_at_least d (suc i) on in rw on (omega (arith, pow-suc 2 i, le))
  | inr off ↦ rw off refl
]

set_half : (d i : ℕ) → set_bit d (suc i) / 2 ≡ set_bit (d / 2) i
set_half d i = elim (Bool-cases (test_bit d (suc i))) [
  | inl on ↦ rw (on, sym (test_bit-suc d i) ∙ on) refl
  | inr off ↦ rw (off, sym (test_bit-suc d i) ∙ off) (omega (arith, pow-suc 2 i))
]

pub test_bit-clear_bit : (d i j : ℕ) → (i == j) ≡ false → test_bit (clear_bit d i) j ≡ test_bit d j
test_bit-clear_bit d zero zero h = absurd (ground arith)
test_bit-clear_bit d zero (suc j) h =
    test_bit-suc (clear_bit d 0) j ∙ ap (λ n. test_bit n j) (ground arith) ∙ sym (test_bit-suc d j)
test_bit-clear_bit d (suc i) zero h = ground (arith, clear_parity d i)
test_bit-clear_bit d (suc i) (suc j) h =
    test_bit-suc (clear_bit d (suc i)) j
    ∙ ap (λ n. test_bit n j) (clear_half d i)
    ∙ test_bit-clear_bit (d / 2) i j (ground arith)
    ∙ sym (test_bit-suc d j)

pub test_bit-clear_bit_same : (d i : ℕ) → test_bit (clear_bit d i) i ≡ false
test_bit-clear_bit_same d zero = ground arith
test_bit-clear_bit_same d (suc i) =
    test_bit-suc (clear_bit d (suc i)) i
    ∙ ap (λ n. test_bit n i) (clear_half d i)
    ∙ test_bit-clear_bit_same (d / 2) i

pub test_bit-set_bit_same : (d i : ℕ) → test_bit (set_bit d i) i ≡ true
test_bit-set_bit_same d zero = ground arith
test_bit-set_bit_same d (suc i) =
    test_bit-suc (set_bit d (suc i)) i
    ∙ ap (λ n. test_bit n i) (set_half d i)
    ∙ test_bit-set_bit_same (d / 2) i

set_parity : (d i : ℕ) → set_bit d (suc i) % 2 ≡ d % 2
set_parity d i = elim (Bool-cases (test_bit d (suc i))) [
  | inl on ↦ rw on refl
  | inr off ↦ rw off (omega (arith, pow-suc 2 i))
]

pub test_bit-set_bit : (d i j : ℕ) → (i == j) ≡ false → test_bit (set_bit d i) j ≡ test_bit d j
test_bit-set_bit d zero zero h = absurd (ground arith)
test_bit-set_bit d zero (suc j) h =
    test_bit-suc (set_bit d 0) j ∙ ap (λ n. test_bit n j) (ground arith) ∙ sym (test_bit-suc d j)
test_bit-set_bit d (suc i) zero h = ground (arith, set_parity d i)
test_bit-set_bit d (suc i) (suc j) h =
    test_bit-suc (set_bit d (suc i)) j
    ∙ ap (λ n. test_bit n j) (set_half d i)
    ∙ test_bit-set_bit (d / 2) i j (ground arith)
    ∙ sym (test_bit-suc d j)
