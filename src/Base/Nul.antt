-- ===== src/Base/Nul.antt =====
-- Texts with no NUL in them: the functions of C take them whole.
use lorawanatd_canarin.Base.Tests.{◌==◌}
use lorawanatd_canarin.Base.Lists.{length, take, All}
use lorawanatd_canarin.Base.CString.{Bytes, c_string, c_prefix, strncpy, strncmp_eq, starts_with}
use Prim.Native.Nat.{ℕ, zero, suc, ◌≤◌}
use mathlib.Core.Path.{◌≡◌, refl, ap}
use mathlib.Core.Bool.{false}
use mathlib.Core.List.{[], ◌∷◌, ◌++◌}
use native.Mathlib.Omega.{arith}

abbrev pub NoNul : Bytes → Type 0
NoNul = All (λ c. (c == 0) ≡ false)

pub c_string-whole : (s : Bytes) → NoNul s → c_string s ≡ s
unfolding c_string
c_string-whole [] h = refl
c_string-whole (c ∷ s) h = rw h.0 (ap (◌∷◌ c) (c_string-whole s h.1))

pub strncpy-whole : (s t : Bytes) → NoNul s → strncpy (length s) (s ++ t) ≡ s
unfolding strncpy
strncpy-whole [] t h = refl
strncpy-whole (c ∷ s) t h = rw h.0 (ap (◌∷◌ c) (strncpy-whole s t h.1))

pub c_prefix-whole : (s t : Bytes) → NoNul s → c_prefix (length s) (s ++ t) ≡ s
unfolding c_prefix
c_prefix-whole [] t h = refl
c_prefix-whole (c ∷ s) t h = rw h.0 (ap (◌∷◌ c) (c_prefix-whole s t h.1))

pub c_prefix-all : (n : ℕ) (s : Bytes) → NoNul s → length s ≤ n → c_prefix n s ≡ s
unfolding c_prefix
c_prefix-all zero [] h le = refl
c_prefix-all zero (c ∷ s) h le = absurd (omega arith)
c_prefix-all (suc n) [] h le = refl
c_prefix-all (suc n) (c ∷ s) h le = rw h.0 (ap (◌∷◌ c) (c_prefix-all n s h.1 (omega arith)))

-- `strncmp(s, t, n)` compares with the first `n` bytes of `t`: it is 0 where `s` starts with them.
pub strncmp_eq-prefix :
    (s t : Bytes) (n : ℕ)
    → NoNul (take n t)
    → n ≤ length t
    → strncmp_eq s t n ≡ starts_with (take n t) s
unfolding strncmp_eq starts_with
strncmp_eq-prefix s t zero h le = refl
strncmp_eq-prefix s [] (suc n) h le = absurd (omega arith)
strncmp_eq-prefix [] (d ∷ t) (suc n) h le = h.0
strncmp_eq-prefix (c ∷ s) (d ∷ t) (suc n) h le = ground (arith, strncmp_eq-prefix s t n h.1)
