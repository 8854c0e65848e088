-- ===== src/Util/Contains.antt =====
-- `is_buffer_contains` of src/util.c, against the relation "occurs in".
use lorawanatd_canarin.Base.{
  ℕ, ◌≡◌, refl, ap, Bool, true, [], ◌∷◌, ◌++◌, inl, inr, ◌↔◌, arith, Bytes, c_prefix, starts_with,
  strstr, Bool-cases, ==_refl,
}

-- `malloc`, `strncpy`, the terminator, `strstr`: the text looked through ends at the first NUL
-- of the buffer, or after `buflen` bytes. (Bytes of `buf` past its end read as NUL.)
unfoldable pub is_buffer_contains : Bytes → ℕ → Bytes → Bool
unfolding c_prefix strstr
is_buffer_contains buf buflen str = strstr (c_prefix buflen buf) str

abbrev pub OccursIn : Bytes → Bytes → Type 0
OccursIn s t = (pre : Bytes) × (post : Bytes) × (t ≡ pre ++ (s ++ post))

starts_with-append : (s t : Bytes) → starts_with s (s ++ t) ≡ true
unfolding starts_with
starts_with-append [] t = refl
starts_with-append (c ∷ s) t = ground (arith, ==_refl c, starts_with-append s t)

starts_with-split : (s t : Bytes) → starts_with s t ≡ true → (post : Bytes) × (t ≡ s ++ post)
unfolding starts_with
starts_with-split [] t h = (t, refl)
starts_with-split (c ∷ s) [] h = cc
starts_with-split (c ∷ s) (d ∷ t) h =
    let (post, e) = starts_with-split s t (ground arith) in (post, ground arith)

strstr-here : (s t : Bytes) → starts_with s t ≡ true → strstr t s ≡ true
unfolding strstr
strstr-here s [] h = h
strstr-here s (c ∷ t) h = ground arith

strstr_complete : (pre s post : Bytes) → strstr (pre ++ (s ++ post)) s ≡ true
unfolding strstr
strstr_complete [] s post = strstr-here s (s ++ post) (starts_with-append s post)
strstr_complete (c ∷ pre) s post = ground (arith, strstr_complete pre s post)

strstr_sound : (t s : Bytes) → strstr t s ≡ true → OccursIn s t
unfolding strstr
strstr_sound [] s h = let (post, e) = starts_with-split s [] h in ([], post, e)
strstr_sound (c ∷ t) s h = elim (Bool-cases (starts_with s (c ∷ t))) [
  | inl here ↦ let (post, e) = starts_with-split s (c ∷ t) here in ([], post, e)
  | inr later ↦
      let (pre, post, e) = strstr_sound t s (ground arith) in (c ∷ pre, post, ap (◌∷◌ c) e)
]

pub strstr_iff : (t s : Bytes) → (strstr t s ≡ true) ↔ OccursIn s t
strstr_iff t s = (strstr_sound t s, λ (pre, post, e). rw e (strstr_complete pre s post))

-- A text is found exactly when it occurs in the buffer before its first NUL and within the
-- first `buflen` bytes.
pub is_buffer_contains_iff :
    (buf : Bytes) (buflen : ℕ) (str : Bytes)
    → (is_buffer_contains buf buflen str ≡ true) ↔ OccursIn str (c_prefix buflen buf)
unfolding is_buffer_contains
is_buffer_contains_iff buf buflen str = strstr_iff (c_prefix buflen buf) str
