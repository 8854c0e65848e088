-- ===== src/Tests/Samples.antt =====
-- Sample data: commands, clients, and states of the daemon.
use lorawanatd_canarin.Base.{ℕ, true, false, List, [], ◌∷◌, Bytes, codes, none, length, Outcome, ok}
use lorawanatd_canarin.LwanContext.{LwanContext}
use lorawanatd_canarin.Command.Types.{
  Command, CommandDef, CommandParam, CmdState, cmd_set, cmd_action, cmd_set_dr, cmd_status,
  cmd_internal, cmd_send, cmd_send_text, cmd_join, cmd_set_njm, cmd_restore_context, cmd_get_deui,
  cmd_get, construct_get_cmd, construct_raw_cmd, construct_send_cmd, construct_join_cmd,
  construct_mac_param_cmd, construct_context_restore_cmd, set_njm_cmd, wait_for_ok_or_timeout,
  wait_for_joined_or_timeout, null_async,
}
use lorawanatd_canarin.State.{
  Lw, Env, HttpClient, HttpClientState, written, http_undefined, no_request,
}
use lorawanatd_canarin.Daemon.Steps.{blank}
use lorawanatd_canarin.Http.Request.{PhrParser, incomplete}
use lorawanatd_canarin.Http.Json.{JsmnParser}

-- A board that says nothing by itself and takes every text whole.
abbrev pub calm : ℕ → Env
calm now = record {
  now = now;
  regexec = λ text. none;
  file_write = written;
  uart_opens = true;
  uart_takes = λ text. length text;
}

-- Parsers that never see a whole request, and no JSON.
abbrev pub no_phr : PhrParser
no_phr = λ text last. record {
  pret = incomplete;
  method = [];
  method_len = 0;
  path = [];
  path_len = 0;
  headers = [];
}

abbrev pub no_jsmn : JsmnParser
no_jsmn = λ text len. none

abbrev pub dr_def : CommandDef
dr_def = record {
  type = cmd_set_dr;
  group = cmd_set;
  token = codes "data_rate";
  cmd = codes "AT+DR";
  construct_cmd = construct_mac_param_cmd;
  process_cmd = wait_for_ok_or_timeout;
  async_cmd = null_async;
  local_state = true;
}

abbrev pub get_deui_def : CommandDef
get_deui_def = record {
  type = cmd_get_deui;
  group = cmd_get;
  token = codes "device_eui";
  cmd = codes "AT+DEUI";
  construct_cmd = construct_get_cmd;
  process_cmd = wait_for_ok_or_timeout;
  async_cmd = null_async;
  local_state = false;
}

abbrev pub njm_def : CommandDef
njm_def = record {
  type = cmd_set_njm;
  group = cmd_set;
  token = codes "network_join_mode";
  cmd = codes "AT+NJM";
  construct_cmd = set_njm_cmd;
  process_cmd = wait_for_ok_or_timeout;
  async_cmd = null_async;
  local_state = true;
}

abbrev pub status_def : CommandDef
status_def = record {
  type = cmd_status;
  group = cmd_action;
  token = codes "status";
  cmd = codes "AT";
  construct_cmd = construct_raw_cmd;
  process_cmd = wait_for_ok_or_timeout;
  async_cmd = null_async;
  local_state = false;
}

abbrev pub send_def : CommandDef
send_def = record {
  type = cmd_send_text;
  group = cmd_send;
  token = codes "send";
  cmd = codes "AT+SEND";
  construct_cmd = construct_send_cmd;
  process_cmd = wait_for_ok_or_timeout;
  async_cmd = null_async;
  local_state = false;
}

abbrev pub join_def : CommandDef
join_def = record {
  type = cmd_join;
  group = cmd_action;
  token = codes "join";
  cmd = codes "AT+JOIN";
  construct_cmd = construct_join_cmd;
  process_cmd = wait_for_joined_or_timeout;
  async_cmd = null_async;
  local_state = false;
}

abbrev pub restore_def : CommandDef
restore_def = record {
  type = cmd_restore_context;
  group = cmd_internal;
  token = codes "context_restore";
  cmd = codes "AT";
  construct_cmd = construct_context_restore_cmd;
  process_cmd = wait_for_ok_or_timeout;
  async_cmd = null_async;
  local_state = false;
}

abbrev pub cmd_of : CommandDef → CommandParam → CmdState → Bytes → Command
cmd_of def param state buf = record {
  def = def;
  epoc_timeout = 15;
  timeout = 15;
  param = param;
  buf = buf;
  state = state;
}

abbrev pub client_of : ℕ → HttpClientState → List Command → HttpClient
client_of id state cmds = record {
  id = id;
  fd = 9;
  cmdq = cmds;
  buf = [];
  action = http_undefined;
  request = no_request;
  state = state;
  is_json = false;
  timed_out = false;
  error_resp = [];
  local = false;
  restore_context = false;
}

-- A context in which the data rate 5 waits to be written, and none in which nothing does.
abbrev pub waiting_ctx : LwanContext
waiting_ctx = record {
  mac_params = record {
    dirty = 2;
    network_join_mode = 1;
    confirmation_mode = 1;
    params = 0 ∷ 5 ∷ 0 ∷ 0 ∷ 0 ∷ 0 ∷ [];
  };
  ctx_len = 0 ∷ 0 ∷ 0 ∷ 0 ∷ 0 ∷ 0 ∷ 0 ∷ [];
  ctx = [] ∷ [] ∷ [] ∷ [] ∷ [] ∷ [] ∷ [] ∷ [];
}

abbrev pub saved_line : Bytes
saved_line = codes "+CTX=1:aabb"

-- The file of a daemon that has saved one context of the board.
abbrev pub saved_ctx : LwanContext
saved_ctx = record {
  mac_params = record {
    dirty = 0;
    network_join_mode = 1;
    confirmation_mode = 0;
    params = 0 ∷ 0 ∷ 0 ∷ 0 ∷ 0 ∷ 0 ∷ [];
  };
  ctx_len = 0 ∷ 11 ∷ 0 ∷ 0 ∷ 0 ∷ 0 ∷ 0 ∷ [];
  ctx = [] ∷ saved_line ∷ [] ∷ [] ∷ [] ∷ [] ∷ [] ∷ [];
}

abbrev pub with_http : List HttpClient → LwanContext → Lw
with_http clients ctx = record (blank none) { http = clients; lwan_ctx = ctx; next_id = 20 }

-- The state that a callback comes to.
abbrev pub or_blank : Outcome Lw → Lw
or_blank (ok lw) = lw
or_blank _ = blank none
