-- ===== src/Context/Stored.antt =====
-- Which line of an answer is stored as the context of a type: the last one of that type.
use lorawanatd_canarin.Base.{
  ℕ, zero, suc, ◌-◌, ◌≡◌, ◌≢◌, ◌<◌, refl, ap, ◌∙◌, true, List, [], ◌∷◌, ◌++◌, Bytes, All, arith,
  length, get_or, set, get_or-set, strncmp_eq, Bool-cases, inl, inr,
}
use lorawanatd_canarin.LwanContext.{LwanContext}
use lorawanatd_canarin.Context.Acquire.{ctx_prefix}
use lorawanatd_canarin.Context.Lines.{IsLine, store_line, store_lines}

get_or-set_ne {ℓ} :
    {A : Type ℓ} (xs : List A) (i j : ℕ) (v d : A) → i ≢ j → get_or (set xs i v) j d ≡ get_or xs j d
get_or-set_ne [] i j v d h = refl
get_or-set_ne (x ∷ xs) zero zero v d h = absurd (h refl)
get_or-set_ne (x ∷ xs) zero (suc j) v d h = refl
get_or-set_ne (x ∷ xs) (suc i) zero v d h = refl
get_or-set_ne (x ∷ xs) (suc i) (suc j) v d h = get_or-set_ne xs i j v d (λ e. h (ap suc e))

length-set {ℓ} : {A : Type ℓ} (xs : List A) (i : ℕ) (v : A) → length (set xs i v) ≡ length xs
length-set [] i v = refl
length-set (x ∷ xs) zero v = refl
length-set (x ∷ xs) (suc i) v = ap suc (length-set xs i v)

-- The type of a line of a known type.
abbrev pub type_of : Bytes → ℕ
type_of l = get_or l 5 0 - b'0'

abbrev pub IsContext : Bytes → Type 0
IsContext l = strncmp_eq l ctx_prefix 5 ≡ true

-- A context of seven texts with their lengths.
abbrev pub IsWhole : LwanContext → Type 0
IsWhole ctx = (length ctx.ctx ≡ 7) × (length ctx.ctx_len ≡ 7)

-- What is saved under a type.
abbrev pub Holds : LwanContext → ℕ → Bytes → Type 0
Holds ctx t l = (get_or ctx.ctx t [] ≡ l) × (get_or ctx.ctx_len t 0 ≡ length l)

store_line-IsWhole : (l : Bytes) (ctx : LwanContext) → IsWhole ctx → IsWhole (store_line l ctx)
store_line-IsWhole l ctx w = elim (Bool-cases (strncmp_eq l ctx_prefix 5)) [
  | inl context ↦
      rw context (
        length-set ctx.ctx (type_of l) l ∙ w.0,
        length-set ctx.ctx_len (type_of l) (length l) ∙ w.1,
      )
  | inr other ↦ rw other w
]

store_lines-IsWhole :
    (ls : List Bytes) (ctx : LwanContext) → IsWhole ctx → IsWhole (store_lines ls ctx)
store_lines-IsWhole [] ctx w = w
store_lines-IsWhole (l ∷ ls) ctx w =
    store_lines-IsWhole ls (store_line l ctx) (store_line-IsWhole l ctx w)

store_line-Holds :
    (l : Bytes) (ctx : LwanContext)
    → IsWhole ctx
    → IsContext l
    → type_of l < 7
    → Holds (store_line l ctx) (type_of l) l
store_line-Holds l ctx w context below = rw context (
  get_or-set ctx.ctx (type_of l) l [] (omega (arith, w.0)),
  get_or-set ctx.ctx_len (type_of l) (length l) 0 (omega (arith, w.1)),
)

-- A line that is no context, or one of another type, leaves what is saved.
store_line-keeps :
    (a : Bytes) (ctx : LwanContext) (t : ℕ) (l : Bytes)
    → (IsContext a → type_of a ≢ t)
    → Holds ctx t l
    → Holds (store_line a ctx) t l
store_line-keeps a ctx t l other h = elim (Bool-cases (strncmp_eq a ctx_prefix 5)) [
  | inl context ↦ rw context (
    get_or-set_ne ctx.ctx (type_of a) t a [] (other context) ∙ h.0,
    get_or-set_ne ctx.ctx_len (type_of a) t (length a) 0 (other context) ∙ h.1,
  )
  | inr none' ↦ rw none' h
]

store_lines-keeps :
    (ls : List Bytes) (ctx : LwanContext) (t : ℕ) (l : Bytes)
    → All (λ a. IsContext a → type_of a ≢ t) ls
    → Holds ctx t l
    → Holds (store_lines ls ctx) t l
store_lines-keeps [] ctx t l others h = h
store_lines-keeps (a ∷ ls) ctx t l others h =
    store_lines-keeps ls (store_line a ctx) t l others.1 (store_line-keeps a ctx t l others.0 h)

pub type_of-lt : (l : Bytes) → IsLine l → IsContext l → type_of l < 7
type_of-lt l line context = let known = line.known context in ground (arith, known)

-- After the lines have been stored, a context that no later line replaces is saved under its type.
pub store_lines-Holds :
    (before : List Bytes) (l : Bytes) (after : List Bytes) (ctx : LwanContext)
    → IsWhole ctx
    → IsLine l
    → IsContext l
    → All (λ a. IsContext a → type_of a ≢ type_of l) after
    → Holds (store_lines (before ++ l ∷ after) ctx) (type_of l) l
store_lines-Holds [] l after ctx w line context last =
    store_lines-keeps after (store_line l ctx) (type_of l) l last
      (store_line-Holds l ctx w context (type_of-lt l line context))
store_lines-Holds (b ∷ before) l after ctx w line context last =
    store_lines-Holds before l after (store_line b ctx) (store_line-IsWhole b ctx w) line context
      last
