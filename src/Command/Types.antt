-- ===== src/Command/Types.antt =====
-- src/include/command.h: the command definitions, their parameters, and the commands.
use lorawanatd_canarin.Base.{ℕ, Bool, true, false, Bytes, []}

pub data CmdGroup : Type 0 where
  cmd_async cmd_action cmd_get cmd_set cmd_send cmd_internal : CmdGroup

abbrev pub group_eq : CmdGroup → CmdGroup → Bool
group_eq cmd_async cmd_async = true
group_eq cmd_action cmd_action = true
group_eq cmd_get cmd_get = true
group_eq cmd_set cmd_set = true
group_eq cmd_send cmd_send = true
group_eq cmd_internal cmd_internal = true
group_eq _ _ = false

-- `CMD_TYPE_MAX` only ends the enumeration and is no type of a command.
pub data CmdType : Type 0 where
  cmd_reset cmd_hard_reset cmd_status cmd_join cmd_get_deui cmd_get_daddr : CmdType
  cmd_get_appkey cmd_get_appeui cmd_get_adr cmd_get_txp cmd_get_dr cmd_get_rx2fq : CmdType
  cmd_get_rx2dr cmd_get_rx1dl cmd_get_rx2dl cmd_get_jn1dl cmd_get_jn2dl cmd_get_njm : CmdType
  cmd_get_nwkid cmd_get_class cmd_get_njs cmd_get_cfm cmd_get_cfs cmd_get_snr : CmdType
  cmd_get_rssi cmd_set_daddr cmd_set_appkey cmd_set_nwkskey cmd_set_appskey : CmdType
  cmd_set_appeui cmd_set_adr cmd_set_txp cmd_set_dr cmd_set_rx2fq cmd_set_rx2dr : CmdType
  cmd_set_rx1dl cmd_set_rx2dl cmd_set_jn1dl cmd_set_jn2dl cmd_set_njm cmd_set_nwkid : CmdType
  cmd_set_class cmd_set_cfm cmd_set_fcnt cmd_send_text cmd_send_binary cmd_async_recv : CmdType
  cmd_async_more_tx cmd_acquire_context cmd_restore_context cmd_delay cmd_force_update : CmdType

pub data CmdState : Type 0 where
  cmd_new cmd_executing cmd_executed cmd_error : CmdState

pub data CmdResCode : Type 0 where
  cmd_res_ignore cmd_res_timeout cmd_res_waiting cmd_res_ok : CmdResCode

-- The functions that the members `construct_cmd`, `process_cmd` and `async_cmd` point to.
-- `CMD_ASYNC` entries hold NULL in the first two, all other entries in the third.
pub data ConstructCmd : Type 0 where
  construct_raw_cmd construct_join_cmd construct_get_cmd construct_set_cmd : ConstructCmd
  construct_send_cmd construct_context_restore_cmd construct_mac_param_cmd : ConstructCmd
  construct_delay_cmd construct_force_update_cmd : ConstructCmd
  get_njm_cmd get_cfm_cmd set_njm_cmd set_cfm_cmd null_construct : ConstructCmd

pub data ProcessCmd : Type 0 where
  wait_for_good_timeout wait_for_ok_or_timeout wait_for_joined_or_timeout : ProcessCmd
  null_process : ProcessCmd

pub data AsyncCmd : Type 0 where
  async_recv async_has_more_tx null_async : AsyncCmd

-- `token_len` and `cmd_len` are the lengths of the two literals in every entry.
pub record CommandDef : Type 0 where
  pub type : CmdType
  pub group : CmdGroup
  pub token : Bytes
  pub cmd : Bytes
  pub construct_cmd : ConstructCmd
  pub process_cmd : ProcessCmd
  pub async_cmd : AsyncCmd
  pub local_state : Bool

-- `union command_param`. `zeroed` is the memory that `calloc` returns.
pub data CommandParam : Type 0 where
  zeroed : CommandParam
  set : (param : Bytes) (param_len : ℕ) → CommandParam
  send : (param : Bytes) (param_len : ℕ) (port : Bytes) (port_len : ℕ) → CommandParam
  internal : (context_type : ℕ) → CommandParam

-- `set` is the initial part of `send`. A command reads only the member that it was made with;
-- for the others these give what zeroed memory holds.
abbrev pub param_of : CommandParam → Bytes
param_of (set p n) = p
param_of (send p n q m) = p
param_of zeroed = []
param_of (internal t) = []

abbrev pub param_len_of : CommandParam → ℕ
param_len_of (set p n) = n
param_len_of (send p n q m) = n
param_len_of zeroed = 0
param_len_of (internal t) = 0

abbrev pub port_of : CommandParam → Bytes
port_of (send p n q m) = q
port_of _ = []

abbrev pub port_len_of : CommandParam → ℕ
port_len_of (send p n q m) = m
port_len_of _ = 0

abbrev pub context_type_of : CommandParam → ℕ
context_type_of (internal t) = t
context_type_of _ = 0

-- `buf` is the part of `char buf[4196]` that is in use, so `buf_len` is its length.
pub record Command : Type 0 where
  pub def : CommandDef
  pub epoc_timeout : ℕ
  pub timeout : ℕ
  pub param : CommandParam
  pub buf : Bytes
  pub state : CmdState

abbrev pub cmd_buf_size : ℕ
cmd_buf_size = 4196
