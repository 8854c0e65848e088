-- ===== src/Command/Params.antt =====
-- The values that `/config/set` and `/send` hand over, and what the commands make of them.
use lorawanatd_canarin.Base.{
  ℕ, ◌%◌, ◌^◌, ◌≡◌, ◌≤◌, ◌<◌, refl, ◌∙◌, true, false, ◌++◌, Option, some, none, Bytes, ok, fault,
  arith, leb, ltb, if◌then◌else◌, if-true, print_u, strtol-print_u, EndsNumber, set, Bool-cases,
  inl, inr,
}
use lorawanatd_canarin.LwanContext.{LwanContext, MacParams, set_bit}
use lorawanatd_canarin.Command.Types.{
  Command, CmdType, param_of, param_len_of, cmd_set_dr, cmd_set_txp, cmd_set_rx1dl, cmd_set_rx2dl,
  cmd_set_rx2dr, cmd_set_adr,
}
use lorawanatd_canarin.Command.Construct.{
  started, response_ok, response_param_error, build_mac_param, switch_mac_param, store_mac_param,
  u32_max, mode_code, build_set_njm, build_set_cfm,
}

-- The MAC parameters: the index of each and the largest value that it takes.
abbrev pub limits : CmdType → Option (ℕ × ℕ)
limits cmd_set_adr = some (0, 1)
limits cmd_set_dr = some (1, 7)
limits cmd_set_txp = some (2, 5)
limits cmd_set_rx1dl = some (3, u32_max)
limits cmd_set_rx2dl = some (4, u32_max)
limits cmd_set_rx2dr = some (5, 7)
limits _ = none

-- The context with one parameter stored and marked to be written to the board.
abbrev pub with_param : ℕ → ℕ → LwanContext → LwanContext
with_param index value ctx = record ctx {
  mac_params = record mac { dirty = set_bit mac.dirty index; params = set mac.params index value };
}
  where
    mac : MacParams
    mac = ctx.mac_params

switch_mac_param-limits :
    (t : CmdType) (index bound value : ℕ) (ctx : LwanContext) (now : ℕ) (cmd : Command)
    → limits t ≡ some (index, bound)
    → switch_mac_param t value ctx now cmd ≡ store_mac_param index bound value ctx now cmd
unfolding switch_mac_param
switch_mac_param-limits cmd_set_adr index bound value ctx now cmd e = ground arith
switch_mac_param-limits cmd_set_dr index bound value ctx now cmd e = ground arith
switch_mac_param-limits cmd_set_txp index bound value ctx now cmd e = ground arith
switch_mac_param-limits cmd_set_rx1dl index bound value ctx now cmd e = ground arith
switch_mac_param-limits cmd_set_rx2dl index bound value ctx now cmd e = ground arith
switch_mac_param-limits cmd_set_rx2dr index bound value ctx now cmd e = ground arith
switch_mac_param-limits _ index bound value ctx now cmd e = absurd (cc)

-- Setting a MAC parameter to a number below 2^32 stores it and marks it as to be written, with
-- "OK" as the answer, exactly if it is not above the limit of the parameter; else the answer is
-- an error and nothing is stored.
pub build_mac_param-number :
    (ctx : LwanContext) (now : ℕ) (cmd : Command) (index bound value : ℕ) (rest : Bytes)
    → cmd.def.local_state ≡ true
    → limits cmd.def.type ≡ some (index, bound)
    → param_of cmd.param ≡ print_u value ++ rest
    → value < 2 ^ 32
    → EndsNumber rest
    → build_mac_param ctx now cmd
      ≡ ok (
          if leb value bound
          then started (with_param index value ctx) now cmd response_ok
          else started ctx now cmd response_param_error)
unfolding build_mac_param store_mac_param
build_mac_param-number ctx now cmd index bound value rest here kind text small ends =
    if-true _ _ cmd.def.local_state here
    ∙ rw (text, strtol-print_u value rest small ends)
        (rw modulo
          (switch_mac_param-limits cmd.def.type index bound value ctx now cmd kind ∙ by_bound))
  where
    modulo : value % 2 ^ 32 ≡ value
    modulo = omega arith

    by_bound :
        store_mac_param index bound value ctx now cmd
        ≡ ok (
            if leb value bound
            then started (with_param index value ctx) now cmd response_ok
            else started ctx now cmd response_param_error)
    by_bound = elim (Bool-cases (ltb bound value)) [
      | inl above ↦
          let e : leb value bound ≡ false = ground arith in rw (above, store_mac_param) (rw e refl)
      | inr within ↦
          let e : leb value bound ≡ true = ground arith in rw (within, store_mac_param) (rw e refl)
    ]

-- The modes are read as numbers of eight bits.
mode_code-number :
    (cmd : Command) (value : ℕ) (rest : Bytes)
    → param_of cmd.param ≡ print_u value ++ rest
    → param_len_of cmd.param < 16
    → value < 2 ^ 32
    → EndsNumber rest
    → mode_code cmd ≡ ok (value % 2 ^ 8)
unfolding mode_code
mode_code-number cmd value rest text short small ends =
    let e : ltb (param_len_of cmd.param) 16 ≡ true = ground arith in
    rw (e, text, strtol-print_u value rest small ends) refl

abbrev pub with_njm : ℕ → LwanContext → LwanContext
with_njm mode ctx = record ctx { mac_params = record mac { network_join_mode = mode } }
  where
    mac : MacParams
    mac = ctx.mac_params

abbrev pub with_cfm : ℕ → LwanContext → LwanContext
with_cfm mode ctx = record ctx { mac_params = record mac { confirmation_mode = mode } }
  where
    mac : MacParams
    mac = ctx.mac_params

-- The network join mode and the confirmation mode take a number below 2^32 modulo 256: if that is
-- 0 or 1 it is stored and answered with "OK", so that 256 counts as 0.
pub set_mode-number :
    (ctx : LwanContext) (now : ℕ) (cmd : Command) (value : ℕ) (rest : Bytes)
    → param_of cmd.param ≡ print_u value ++ rest
    → param_len_of cmd.param < 16
    → value < 2 ^ 32
    → EndsNumber rest
    → value % 2 ^ 8 ≤ 1
    → (build_set_njm ctx now cmd ≡ ok (started (with_njm (value % 2 ^ 8) ctx) now cmd response_ok))
      × (build_set_cfm ctx now cmd
          ≡ ok (started (with_cfm (value % 2 ^ 8) ctx) now cmd response_ok))
unfolding build_set_njm build_set_cfm
set_mode-number ctx now cmd value rest text short small ends mode =
    let e : ltb 1 (value % 2 ^ 8) ≡ false = ground arith in
    let code : mode_code cmd ≡ ok (value % 2 ^ 8) =
      mode_code-number cmd value rest text short small ends in
    (rw code (rw e refl), rw code (rw e refl))

-- A mode of 16 bytes or more is written past the buffer into which it is copied.
set_mode-long :
    (ctx : LwanContext) (now : ℕ) (cmd : Command)
    → 16 ≤ param_len_of cmd.param
    → (build_set_njm ctx now cmd ≡ fault) × (build_set_cfm ctx now cmd ≡ fault)
unfolding build_set_njm build_set_cfm mode_code
set_mode-long ctx now cmd long =
    let e : ltb (param_len_of cmd.param) 16 ≡ false = ground arith in (rw e refl, rw e refl)
