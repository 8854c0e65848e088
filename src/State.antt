-- ===== src/State.antt =====
-- The state of the daemon: src/include/lorawanatd.h, http.h and push.h.
use lorawanatd_canarin.Base.{ℕ, List, [], ◌∷◌, ◌++◌, Option, Bool, Bytes}
use lorawanatd_canarin.LwanContext.{LwanContext}
use lorawanatd_canarin.Command.Types.{Command}

pub data HttpAction : Type 0 where
  http_undefined http_reset http_hard_reset http_status http_join http_get_config : HttpAction
  http_set_config http_send_data http_sendb_data http_force_update : HttpAction

pub data HttpClientState : Type 0 where
  http_client_error http_client_disconnected : HttpClientState
  http_client_active http_client_request_complete : HttpClientState

-- A pointer into the request is the text from there to the end of the buffer.
pub record HttpRequest : Type 0 where
  pub path : Bytes
  pub path_len : ℕ
  pub method : Bytes
  pub method_len : ℕ
  pub content : Bytes
  pub content_len : ℕ
  pub header_len : ℕ

abbrev pub no_request : HttpRequest
no_request = record {
  path = [];
  path_len = 0;
  method = [];
  method_len = 0;
  content = [];
  content_len = 0;
  header_len = 0;
}

-- `id` is the client's address. `buf` is the part of `buf[8196]` in use, so `buf_len` is its
-- length; `cmdq` is the queue behind `cmdq_head`.
pub record HttpClient : Type 0 where
  pub id : ℕ
  pub fd : ℕ
  pub cmdq : List Command
  pub buf : Bytes
  pub action : HttpAction
  pub request : HttpRequest
  pub state : HttpClientState
  pub is_json : Bool
  pub timed_out : Bool
  pub error_resp : Bytes
  pub local : Bool
  pub restore_context : Bool

abbrev pub http_buf_size : ℕ
http_buf_size = 8196

pub data PushClientState : Type 0 where
  push_client_active push_client_disconnected : PushClientState

-- What a push client sends is read and never looked at: `buf_len` stays 0.
pub record PushClient : Type 0 where
  pub state : PushClientState
  pub fd : ℕ

-- `tx_q` holds the texts that wait to be written; `buf` is the part of `buf[8149]` in use.
pub record UartDef : Type 0 where
  pub buf : Bytes
  pub tx_q : List Bytes

abbrev pub uart_buf_size : ℕ
uart_buf_size = 8149

abbrev pub uart_tx_size : ℕ
uart_tx_size = 1024

-- `client` is the address that the context manager remembers, dangling or not.
pub record ContextManager : Type 0 where
  pub client : Option ℕ
  pub send_recv_cntr : ℕ

-- What the daemon does to the world, in order.
pub data Effect : Type 0 where
  http_written : (fd : ℕ) (text : Bytes) → Effect
  push_written : (fd : ℕ) (text : Bytes) → Effect
  uart_written : (text : Bytes) → Effect
  uart_reopened : Effect
  closed : (fd : ℕ) → Effect

-- `file` is the context file, if there is one that can be read whole. `next_id` is an address
-- that no client has had.
pub record Lw : Type 0 where
  pub uart : UartDef
  pub http : List HttpClient
  pub push : List PushClient
  pub ctx_mngr : ContextManager
  pub lwan_ctx : LwanContext
  pub file : Option LwanContext
  pub next_id : ℕ
  pub effects : List Effect

abbrev pub emit : Lw → Effect → Lw
emit lw e = record lw { effects = lw.effects ++ e ∷ [] }

-- Where the pattern for a received message and its five groups stand in the buffer.
pub record RecvMatch : Type 0 where
  pub rm_so : ℕ
  pub rm_eo : ℕ
  pub groups : List (ℕ × ℕ)

pub data FileWrite : Type 0 where
  written cannot_open cannot_write : FileWrite

-- What the daemon meets in one call of one of its callbacks: the time, whether the pattern for
-- a received message matches a text (`regexec`), how writing the context file ends, whether the
-- UART opens again, and how many bytes of a text the UART takes.
pub record Env : Type 0 where
  pub now : ℕ
  pub regexec : Bytes → Option RecvMatch
  pub file_write : FileWrite
  pub uart_opens : Bool
  pub uart_takes : Bytes → ℕ
