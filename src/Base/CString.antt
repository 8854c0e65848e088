-- ===== src/Base/CString.antt =====
-- Texts as lists of bytes, and the library functions of C on them that the sources call.
-- The text behind a pointer is the list of the bytes from there on; its end reads as a NUL.
use Prim.Native.Nat.{ℕ, zero, suc}
use Prim.Native.Char.{code}
use Prim.Native.String.{String}
use mathlib.Core.Bool.{Bool, true, false, ◌&&◌, ◌||◌}
use mathlib.Core.List.{List, [], ◌∷◌}
use lorawanatd_canarin.Base.Tests.{◌==◌, if◌then◌else◌}
use lorawanatd_canarin.Base.Lists.{replicate}

abbrev pub Bytes : Type 0
Bytes = List ℕ

-- The code points of a text: its bytes, since every literal of the sources is ASCII.
abbrev pub codes : String → Bytes
codes String.[] = []
codes (String.◌∷◌ c s) = code c ∷ codes s

-- The bytes before the first NUL: the C string that starts at the pointer.
unfoldable pub c_string : Bytes → Bytes
c_string [] = []
c_string (c ∷ s) = if c == 0 then [] else c ∷ c_string s

-- `%.*s` with precision `n`, and the bytes that `strncpy(_, s, n)` takes over before it pads.
unfoldable pub c_prefix : ℕ → Bytes → Bytes
c_prefix zero s = []
c_prefix (suc n) [] = []
c_prefix (suc n) (c ∷ s) = if c == 0 then [] else c ∷ c_prefix n s

-- The `n` bytes that `strncpy(_, s, n)` writes.
unfoldable pub strncpy : ℕ → Bytes → Bytes
strncpy zero s = []
strncpy (suc n) [] = replicate (suc n) 0
strncpy (suc n) (c ∷ s) = if c == 0 then replicate (suc n) 0 else c ∷ strncpy n s

-- `strncmp(s, t, n) == 0`
unfoldable pub strncmp_eq : Bytes → Bytes → ℕ → Bool
strncmp_eq s t zero = true
strncmp_eq [] [] (suc n) = true
strncmp_eq [] (d ∷ t) (suc n) = d == 0
strncmp_eq (c ∷ s) [] (suc n) = c == 0
strncmp_eq (c ∷ s) (d ∷ t) (suc n) = c == d && (c == 0 || strncmp_eq s t n)

-- `strncmp(s, t, length s) == 0` for an `s` with no NUL: `t` starts with `s`.
unfoldable pub starts_with : Bytes → Bytes → Bool
starts_with [] t = true
starts_with (c ∷ s) [] = false
starts_with (c ∷ s) (d ∷ t) = c == d && starts_with s t

-- `strstr(t, s) != NULL` on C strings
unfoldable pub strstr : Bytes → Bytes → Bool
unfolding starts_with
strstr [] s = starts_with s []
strstr (c ∷ t) s = starts_with s (c ∷ t) || strstr t s
