-- ===== src/Command/Construct.antt =====
-- The functions behind `construct_cmd` in src/command.c. `now` is what `time(NULL)` returns.
use lorawanatd_canarin.Base.{
  ℕ, suc, ◌+◌, ◌-◌, ◌%◌, ◌^◌, [], ◌++◌, Bytes, codes, c_string, c_prefix, strncpy, strtol, print_u,
  Outcome, ok, fault, in_bounds, ◌>>=◌, ◌>>◌, ltb, leb, if◌then◌else◌, length, get_or, set,
}
use lorawanatd_canarin.LwanContext
use lorawanatd_canarin.LwanContext.{LwanContext, MacParams, set_bit}
use lorawanatd_canarin.Command.Types.{
  Command, ConstructCmd, CmdType, param_of, param_len_of, port_of, port_len_of, context_type_of,
  construct_raw_cmd, construct_join_cmd, construct_get_cmd, construct_set_cmd, construct_send_cmd,
  construct_context_restore_cmd, construct_mac_param_cmd, construct_delay_cmd,
  construct_force_update_cmd, get_njm_cmd, get_cfm_cmd, set_njm_cmd, set_cfm_cmd, null_construct,
  cmd_set_dr, cmd_set_txp, cmd_set_rx1dl, cmd_set_rx2dl, cmd_set_rx2dr, cmd_set_adr,
}

-- The text that is returned, and what becomes of the command and of the context.
pub record Built : Type 0 where
  pub text : Bytes
  pub cmd : Command
  pub lwan_ctx : LwanContext

-- `response[0]` and `response[1]`
abbrev pub response_ok : Bytes
response_ok = codes "\r\nOK\r\n"

abbrev pub response_param_error : Bytes
response_param_error = codes "\r\nAT_PARAM_ERROR\r\n"

abbrev pub delay_msg : Bytes
delay_msg = codes "\r\n\r\n"

unfoldable pub get_epoc_timeout : Command → ℕ → ℕ
get_epoc_timeout cmd now = cmd.timeout + now

-- The end of nearly every function: start the clock of the command and return the text.
abbrev pub started : LwanContext → ℕ → Command → Bytes → Built
started ctx now cmd text = record {
  text = text;
  cmd = record cmd { epoc_timeout = get_epoc_timeout cmd now };
  lwan_ctx = ctx;
}

unfoldable pub raw_text : Command → Bytes
raw_text cmd = c_string (strncpy (length cmd.def.cmd) cmd.def.cmd)

-- `malloc(buflen + 1)` holds the text and its terminator only if the mode has one digit.
unfoldable pub join_text : LwanContext → Command → Outcome Bytes
unfolding print_u
join_text ctx cmd = do
  let buflen = length cmd.def.cmd + 2
  let text = cmd.def.cmd ++ (codes "=" ++ print_u ctx.mac_params.network_join_mode)
  in_bounds (leb (length text) buflen)
  ok (c_prefix buflen text)

unfoldable pub get_text : Command → Bytes
get_text cmd = c_string (strncpy (length cmd.def.cmd) cmd.def.cmd ++ strncpy 2 (codes "=?"))

unfoldable pub set_text : Command → Bytes
set_text cmd = c_string (
    strncpy (length cmd.def.cmd) cmd.def.cmd
    ++ (strncpy 1 (codes "=") ++ strncpy (param_len_of cmd.param) (param_of cmd.param)))

-- `sprintf` prints one byte of the parameter too many, and the terminator cuts the text at
-- `buflen`. The buffer has `buflen + 4` bytes.
unfoldable pub send_text : LwanContext → Command → Outcome Bytes
unfolding print_u c_prefix
send_text ctx cmd = do
  let param_len = param_len_of cmd.param
  let buflen = length cmd.def.cmd + 1 + port_len_of cmd.param + 3 + param_len
  let text =
      cmd.def.cmd
      ++ (codes "="
          ++ (c_prefix (port_len_of cmd.param) (port_of cmd.param)
              ++ (codes ":"
                  ++ (print_u ctx.mac_params.confirmation_mode
                      ++ (codes ":" ++ c_prefix (suc param_len) (param_of cmd.param))))))
  in_bounds (leb (length text + 1) (buflen + 4))
  ok (c_prefix buflen text)

unfoldable pub context_restore_text : LwanContext → Command → Bytes
context_restore_text ctx cmd =
    let type = context_type_of cmd.param in
    cmd.def.cmd ++ c_prefix (get_or ctx.ctx_len type 0) (get_or ctx.ctx type [])

-- `strncpy` into `char buf[16]` and its terminator at `buf[param_len]`; then the number is
-- read from the parameter itself, as a `uint8_t`.
unfoldable pub mode_code : Command → Outcome ℕ
mode_code cmd = do
  in_bounds (ltb (param_len_of cmd.param) 16)
  ok ((strtol (param_of cmd.param)).value % 2 ^ 8)

unfoldable pub build_set_njm : LwanContext → ℕ → Command → Outcome Built
unfolding mode_code
build_set_njm ctx now cmd = do
  code ← mode_code cmd
  if ltb 1 code
      then ok (started ctx now cmd response_param_error)
      else ok (
          started (record ctx { mac_params = record mac { network_join_mode = code } }) now cmd
            response_ok)
  where
    mac : MacParams
    mac = ctx.mac_params

unfoldable pub build_set_cfm : LwanContext → ℕ → Command → Outcome Built
unfolding mode_code
build_set_cfm ctx now cmd = do
  code ← mode_code cmd
  if ltb 1 code
      then ok (started ctx now cmd response_param_error)
      else ok (
          started (record ctx { mac_params = record mac { confirmation_mode = code } }) now cmd
            response_ok)
  where
    mac : MacParams
    mac = ctx.mac_params

-- One case of the `switch`: `bound` is the largest code that is taken.
unfoldable pub store_mac_param : ℕ → ℕ → ℕ → LwanContext → ℕ → Command → Outcome Built
store_mac_param index bound code ctx now cmd =
    if ltb bound code
    then ok (started ctx now cmd response_param_error)
    else ok (
        started
          (record ctx {
            mac_params = record mac {
              dirty = set_bit mac.dirty index;
              params = set mac.params index code;
            };
          })
          now cmd response_ok)
  where
    mac : MacParams
    mac = ctx.mac_params

abbrev pub u32_max : ℕ
u32_max = 2 ^ 32 - 1

-- A delay is not checked, so its bound is that of its type. With any other type of command
-- `result` would be read with no value.
unfoldable pub switch_mac_param : CmdType → ℕ → LwanContext → ℕ → Command → Outcome Built
unfolding store_mac_param
switch_mac_param cmd_set_dr code = store_mac_param LwanContext.mac_param_data_rate 7 code
switch_mac_param cmd_set_txp code = store_mac_param LwanContext.mac_param_transmit_power 5 code
switch_mac_param cmd_set_rx1dl code = store_mac_param LwanContext.mac_param_rx1_delay u32_max code
switch_mac_param cmd_set_rx2dl code = store_mac_param LwanContext.mac_param_rx2_delay u32_max code
switch_mac_param cmd_set_rx2dr code = store_mac_param LwanContext.mac_param_rx2_data_rate 7 code
switch_mac_param cmd_set_adr code = store_mac_param LwanContext.mac_param_adr 1 code
switch_mac_param _ code = λ ctx now cmd. fault

-- A command that is not local goes to the hardware as it is; an ERANGE returns at once.
unfoldable pub build_mac_param : LwanContext → ℕ → Command → Outcome Built
unfolding switch_mac_param set_text
build_mac_param ctx now cmd =
    let number = strtol (param_of cmd.param) in
    if cmd.def.local_state
    then (if number.erange
        then ok (record { text = response_param_error; cmd = cmd; lwan_ctx = ctx })
        else switch_mac_param cmd.def.type (number.value % 2 ^ 32) ctx now cmd)
    else ok (started ctx now cmd (set_text cmd))

abbrev mode_text : ℕ → Bytes
mode_text mode = print_u mode ++ codes "\r\nOK\r\n"

-- The call `cmd->def.construct_cmd(cmd)`.
unfoldable pub construct : ConstructCmd → LwanContext → ℕ → Command → Outcome Built
unfolding raw_text join_text get_text set_text send_text context_restore_text build_set_njm
    build_set_cfm build_mac_param
construct construct_raw_cmd ctx now cmd = ok (started ctx now cmd (raw_text cmd))
construct construct_join_cmd ctx now cmd = do
  text ← join_text ctx cmd
  ok (started ctx now cmd text)
construct construct_get_cmd ctx now cmd = ok (started ctx now cmd (get_text cmd))
construct construct_set_cmd ctx now cmd = ok (started ctx now cmd (set_text cmd))
construct construct_send_cmd ctx now cmd = do
  text ← send_text ctx cmd
  ok (started ctx now cmd text)
construct construct_context_restore_cmd ctx now cmd =
    ok (started ctx now cmd (context_restore_text ctx cmd))
construct construct_mac_param_cmd ctx now cmd = build_mac_param ctx now cmd
construct construct_delay_cmd ctx now cmd = ok (started ctx now cmd delay_msg)
construct construct_force_update_cmd ctx now cmd =
    ok (record { text = response_ok; cmd = cmd; lwan_ctx = ctx })
construct get_njm_cmd ctx now cmd =
    ok (started ctx now cmd (mode_text ctx.mac_params.network_join_mode))
construct get_cfm_cmd ctx now cmd =
    ok (started ctx now cmd (mode_text ctx.mac_params.confirmation_mode))
construct set_njm_cmd ctx now cmd = build_set_njm ctx now cmd
construct set_cfm_cmd ctx now cmd = build_set_cfm ctx now cmd
construct null_construct ctx now cmd = fault
