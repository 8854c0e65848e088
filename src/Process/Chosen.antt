-- ===== src/Process/Chosen.antt =====
-- What the options of src/main.c amount to: of each the last one counts.
use lorawanatd_canarin.Base.{
  ℕ, ◌≤◌, ◌<◌, ◌≡◌, refl, ap, ◌∙◌, Bool, true, false, ◌||◌, List, [], ◌∷◌, Option, none, some,
  Bytes, All, arith, ok, fault, ltb, length,
}
use lorawanatd_canarin.Process.Options.{
  Opt, opt_f, opt_c, opt_b, opt_r, opt_missing, opt_unknown, Config, take_opt, take_opts,
  filename_size, baudrate_of,
}

-- The argument of an option, if it is this one.
abbrev pub f_arg : Opt → Option Bytes
f_arg (opt_f arg) = some arg
f_arg _ = none

abbrev pub c_arg : Opt → Option Bytes
c_arg (opt_c arg) = some arg
c_arg _ = none

abbrev pub b_arg : Opt → Option Bytes
b_arg (opt_b arg) = some arg
b_arg _ = none

abbrev pub is_remote : Opt → Bool
is_remote opt_r = true
is_remote _ = false

-- The last element for which there is a value.
abbrev pub last_some {ℓ} : {A : Type ℓ} → (Opt → Option A) → List Opt → Option A
last_some sel [] = none
last_some sel (o ∷ os) = elim (last_some sel os) [ some a ↦ some a | none ↦ sel o ]

abbrev pub any_remote : List Opt → Bool
any_remote [] = false
any_remote (o ∷ os) = is_remote o || any_remote os

abbrev pub value_or {ℓ} : {A : Type ℓ} → Option A → A → A
value_or none d = d
value_or (some a) d = a

-- The numbers behind `-b`.
abbrev pub rate : Opt → Option ℕ
rate (opt_b arg) = some (baudrate_of arg)
rate _ = none

-- A name that fits into its buffer.
abbrev pub Fits : Opt → Type 0
Fits (opt_f arg) = length arg < filename_size
Fits (opt_c arg) = length arg < filename_size
Fits _ = Unit

-- The fields that the options leave.
abbrev pub chosen : List Opt → Config → Config
chosen os cfg = record {
  uart_file = value_or (last_some f_arg os) cfg.uart_file;
  filename = value_or (last_some c_arg os) cfg.filename;
  baudrate = value_or (last_some rate os) cfg.baudrate;
  remote_mode = any_remote os || cfg.remote_mode;
}

-- One option before the others.
step : Opt → Config → Config
step (opt_f arg) cfg = record cfg { uart_file = arg }
step (opt_c arg) cfg = record cfg { filename = arg }
step (opt_b arg) cfg = record cfg { baudrate = baudrate_of arg }
step opt_r cfg = record cfg { remote_mode = true }
step opt_missing cfg = cfg
step opt_unknown cfg = cfg

take_opt-step : (o : Opt) (cfg : Config) → Fits o → take_opt o cfg ≡ ok (step o cfg)
unfolding take_opt step
take_opt-step (opt_f arg) cfg h = ground arith
take_opt-step (opt_c arg) cfg h = ground arith
take_opt-step (opt_b arg) cfg h = refl
take_opt-step opt_r cfg h = refl
take_opt-step opt_missing cfg h = refl
take_opt-step opt_unknown cfg h = refl

value_or-step {ℓ} :
    {A : Type ℓ} (o : Option A) (p : Option A) (d : A)
    → value_or o (value_or p d) ≡ value_or (elim o [ some a ↦ some a | none ↦ p ]) d
value_or-step none p d = refl
value_or-step (some a) p d = refl

chosen-step :
    (o : Opt) (os : List Opt) (cfg : Config) → chosen os (step o cfg) ≡ chosen (o ∷ os) cfg
unfolding step
chosen-step (opt_f arg) os cfg = ground arith
chosen-step (opt_c arg) os cfg = ground arith
chosen-step (opt_b arg) os cfg = ground arith
chosen-step opt_r os cfg = ground arith
chosen-step opt_missing os cfg = ground arith
chosen-step opt_unknown os cfg = ground arith

-- If every name fits into its buffer, the last device, the last file and the last rate count, and
-- the remote mode is on if it was asked for at all; what is not given stays as it was.
pub take_opts-chosen :
    (os : List Opt) (cfg : Config) → All Fits os → take_opts os cfg ≡ ok (chosen os cfg)
unfolding take_opts
take_opts-chosen [] cfg h = refl
take_opts-chosen (o ∷ os) cfg h =
    rw (take_opt-step o cfg h.0)
      (take_opts-chosen os (step o cfg) h.1 ∙ ap (λ (c : Config). ok c) (chosen-step o os cfg))

-- A device or a file whose name has 255 bytes or more is written past its buffer.
take_opts-long :
    (arg : Bytes) (os : List Opt) (cfg : Config)
    → filename_size ≤ length arg
    → (take_opts (opt_f arg ∷ os) cfg ≡ fault) × (take_opts (opt_c arg ∷ os) cfg ≡ fault)
unfolding take_opts take_opt
take_opts-long arg os cfg h =
    let e : ltb (length arg) filename_size ≡ false = ground arith in (rw e refl, rw e refl)
