-- ===== src/Process/Options.antt =====
-- `parse_opts` of src/main.c, and the `getopt` of the C library for ":f:c:b:r". An argument is the
-- list of its bytes without the terminator.
use lorawanatd_canarin.Base.{
  ℕ, ◌%◌, ◌^◌, Bool, true, false, ◌||◌, List, [], ◌∷◌, Bytes, Outcome, ok, in_bounds, ◌>>=◌, ◌>>◌,
  ltb, ◌==◌, if◌then◌else◌, length, strtol,
}

-- What `getopt` returns, with `optarg`.
pub data Opt : Type 0 where
  opt_f opt_c opt_b : (optarg : Bytes) → Opt
  opt_r opt_missing opt_unknown : Opt

abbrev takes_arg : ℕ → Bool
takes_arg c = c == b'f' || (c == b'c' || c == b'b')

abbrev pub with_arg : ℕ → Bytes → Opt
with_arg c arg = if c == b'f' then opt_f arg else if c == b'c' then opt_c arg else opt_b arg

-- The letters of one argument. `after` is what the arguments behind it give, and `next` what they
-- give if the first of them belongs to the last letter.
unfoldable pub letters : Bytes → List Opt → (ℕ → List Opt) → List Opt
letters [] after next = after
letters (c ∷ s) after next = elim (takes_arg c) [
  | true ↦ elim s [ [] ↦ next c | d ∷ t ↦ with_arg c (d ∷ t) ∷ after ]
  | false ↦ (if c == b'r' then opt_r else opt_unknown) ∷ letters s after next
]

-- An argument that starts with a dash and is not only that, and the one that ends the options.
pub data Kind : Type 0 where
  operand options last : Kind

abbrev pub kind : Bytes → Kind
kind [] = operand
kind (c ∷ []) = operand
kind (c ∷ d ∷ []) = if c == b'-' then (if d == b'-' then last else options) else operand
kind (c ∷ d ∷ e ∷ s) = if c == b'-' then options else operand

abbrev tail_of : Bytes → Bytes
tail_of [] = []
tail_of (c ∷ s) = s

unfoldable pub getopt : List Bytes → List Opt
unfolding letters
getopt [] = []
getopt (a ∷ []) = elim (kind a) [
  | operand ↦ []
  | last ↦ []
  | options ↦ letters (tail_of a) [] (λ c. opt_missing ∷ [])
]
getopt (a ∷ b ∷ args) = elim (kind a) [
  | operand ↦ getopt (b ∷ args)
  | last ↦ []
  | options ↦ letters (tail_of a) (getopt (b ∷ args)) (λ c. with_arg c b ∷ getopt args)
]

-- The fields that the options set.
pub record Config : Type 0 where
  pub uart_file : Bytes
  pub filename : Bytes
  pub baudrate : ℕ
  pub remote_mode : Bool

-- What `calloc` leaves.
abbrev pub no_config : Config
no_config = record { uart_file = []; filename = []; baudrate = 0; remote_mode = false }

abbrev pub filename_size : ℕ
filename_size = 255

-- `baudrate` is an `unsigned int`.
abbrev pub baudrate_of : Bytes → ℕ
baudrate_of arg = (strtol arg).value % 2 ^ 32

-- One round of the loop: `strcpy` into `char file[255]` and `char filename[255]`.
unfoldable pub take_opt : Opt → Config → Outcome Config
unfolding strtol
take_opt (opt_f arg) cfg = do
  in_bounds (ltb (length arg) filename_size)
  ok (record cfg { uart_file = arg })
take_opt (opt_c arg) cfg = do
  in_bounds (ltb (length arg) filename_size)
  ok (record cfg { filename = arg })
take_opt (opt_b arg) cfg = ok (record cfg { baudrate = baudrate_of arg })
take_opt opt_r cfg = ok (record cfg { remote_mode = true })
take_opt opt_missing cfg = ok cfg
take_opt opt_unknown cfg = ok cfg

unfoldable pub take_opts : List Opt → Config → Outcome Config
unfolding take_opt
take_opts [] cfg = ok cfg
take_opts (o ∷ os) cfg = do cfg' ← take_opt o cfg; take_opts os cfg'

-- The three tests behind the loop; the last one never fails on an unsigned number.
unfoldable pub is_accepted : Config → Bool
is_accepted cfg =
    if length cfg.uart_file == 0
    then false
    else if length cfg.filename == 0
    then false
    else if ltb cfg.baudrate 0
    then false
    else true

-- `argv` without the name of the program. The test is whether RETURN_OK is returned.
unfoldable pub parse_opts : Config → List Bytes → Outcome (Config × Bool)
unfolding getopt take_opts is_accepted
parse_opts cfg argv = do cfg' ← take_opts (getopt argv) cfg; ok (cfg', is_accepted cfg')
