-- ===== src/Daemon/Steps.antt =====
-- The start of the daemon, one round of its timer, and its callbacks as a step relation.
use lorawanatd_canarin.Base.{
  ℕ, false, List, [], ◌∷◌, ◌++◌, Option, none, ◌≡◌, ◌≤◌, ◌+◌, Bytes, Outcome, ok, ◌>>=◌, length,
}
use lorawanatd_canarin.LwanContext.{LwanContext}
use lorawanatd_canarin.State.{Lw, Env, HttpClient, PushClient, http_buf_size}
use lorawanatd_canarin.Clients.{remove_disconnected_http_clients}
use lorawanatd_canarin.Context.File.{zeroed_lwan_ctx}
use lorawanatd_canarin.Context.Event.{context_manager_init}
use lorawanatd_canarin.Push.{
  ReadResult, received, remove_disconnected_push_clients, on_read_push, on_accept_push,
}
use lorawanatd_canarin.Uart.Rx.{uart_io}
use lorawanatd_canarin.Uart.Run.{process_cmd}
use lorawanatd_canarin.Http.Request.{PhrParser}
use lorawanatd_canarin.Http.Json.{JsmnParser}
use lorawanatd_canarin.Http.Read.{on_read_http, on_accept_http}
use lorawanatd_canarin.Http.Process.{process_http_clients}

-- What `calloc` and the queue initialisers leave, with a context file that may be there.
abbrev pub blank : Option LwanContext → Lw
blank file = record {
  uart = record { buf = []; tx_q = [] };
  http = [];
  push = [];
  ctx_mngr = record { client = none; send_recv_cntr = 0 };
  lwan_ctx = zeroed_lwan_ctx;
  file = file;
  next_id = 0;
  effects = [];
}

-- The state in which `main` enters the event loop.
unfoldable pub boot : Option LwanContext → Outcome Lw
boot file = context_manager_init (blank file)

-- `cb_timer`; `input` is what the UART has to read in this round.
unfoldable pub cb_timer : Env → Bytes → Lw → Outcome Lw
cb_timer env input lw = do
  lw₁ ← remove_disconnected_http_clients (remove_disconnected_push_clients lw)
  lw₂ ← process_http_clients env lw₁
  lw₃ ← process_cmd env lw₂
  uart_io env input lw₃

-- A `read` never returns more than the room in the client's buffer.
abbrev pub Fits : ReadResult → HttpClient → Type 0
Fits (received bytes) client = length client.buf + length bytes ≤ http_buf_size
Fits _ client = Unit

-- One callback of the event loop that comes to its end. A read belongs to one queued client, which
-- has a connection: a local client has no event.
pub data Step (phr : PhrParser) (jsmn : JsmnParser) (lw : Lw) : Lw → Type 0 where
  timer :
      {lw' : Lw} (env : Env) (input : Bytes) → cb_timer env input lw ≡ ok lw' → Step phr jsmn lw lw'
  http_accept : (fd : ℕ) → Step phr jsmn lw (on_accept_http fd lw)
  http_read :
      (before : List HttpClient) (client client' : HttpClient) (after : List HttpClient)
      (result : ReadResult)
      → lw.http ≡ before ++ client ∷ after
      → client.local ≡ false
      → Fits result client
      → on_read_http phr jsmn result client ≡ ok client'
      → Step phr jsmn lw (record lw { http = before ++ client' ∷ after })
  push_accept : (fd : ℕ) → Step phr jsmn lw (on_accept_push fd lw)
  push_read :
      (before : List PushClient) (client : PushClient) (after : List PushClient)
      (result : ReadResult)
      → lw.push ≡ before ++ client ∷ after
      → Step phr jsmn lw (record lw { push = before ++ on_read_push result client ∷ after })

-- The states that the daemon comes to.
pub data Reach (phr : PhrParser) (jsmn : JsmnParser) : Lw → Type 0 where
  started : {lw : Lw} (file : Option LwanContext) → boot file ≡ ok lw → Reach phr jsmn lw
  next : {lw lw' : Lw} → Reach phr jsmn lw → Step phr jsmn lw lw' → Reach phr jsmn lw'
