-- ===== src/Http/Process.antt =====
-- `process_http_clients`: the first client's commands are watched, and its reply is sent.
use lorawanatd_canarin.Base.{
  Bool, true, false, ◌||◌, ◌&&◌, List, [], ◌∷◌, ◌++◌, none, some, Bytes, codes, c_string, Outcome,
  ok, assert, not, ◌>>=◌, ◌>>◌, if◌then◌else◌,
}
use lorawanatd_canarin.Command.Types.{
  Command, CmdType, CmdState, cmd_new, cmd_executing, cmd_executed, cmd_error, cmd_delay, cmd_reset,
  cmd_res_ok, cmd_res_timeout, cmd_res_waiting, cmd_res_ignore,
}
use lorawanatd_canarin.Command.Wait.{process}
use lorawanatd_canarin.State.{
  Lw, Env, HttpClient, HttpClientState, http_client_error, http_client_disconnected,
  http_client_request_complete, http_client_active,
}
use lorawanatd_canarin.Clients.{free_http_client, http_client_write}
use lorawanatd_canarin.Context.Event.{context_manager_event}
use lorawanatd_canarin.Uart.Tx.{uart_write}
use lorawanatd_canarin.Uart.Async.{set_uart_buf}
use lorawanatd_canarin.Uart.Run.{with_first}
use lorawanatd_canarin.Http.Reply.{reply_get_cmds}

-- Where the walk over the commands stops: at one that is executing or failed, at a new one, or at
-- the end.
pub data Current : Type 0 where
  waiting finished : Current
  running failed : (before : List Command) (cmd : Command) (after : List Command) → Current

abbrev pub after_cmd : Command → Current → Current
after_cmd c waiting = waiting
after_cmd c finished = finished
after_cmd c (running before cmd after) = running (c ∷ before) cmd after
after_cmd c (failed before cmd after) = failed (c ∷ before) cmd after

abbrev pub current_at : CmdState → Command → List Command → Current → Current
current_at cmd_new c cs rest = waiting
current_at cmd_executing c cs rest = running [] c cs
current_at cmd_error c cs rest = failed [] c cs
current_at cmd_executed c cs rest = after_cmd c rest

unfoldable pub current_cmd : List Command → Current
current_cmd [] = finished
current_cmd (c ∷ cs) = current_at c.state c cs (current_cmd cs)

abbrev pub executed : Command → Command
executed cmd = record cmd { state = cmd_executed }

abbrev pub is_delay : CmdType → Bool
is_delay cmd_delay = true
is_delay _ = false

abbrev pub with_timeout : Bool → HttpClient → HttpClient
with_timeout timed_out client = record client { timed_out = timed_out }

-- The command is done, in time or not: the buffer of the UART is cleared, and the context manager
-- hears of it unless the client has timed out.
unfoldable pub finish_cmd :
    Env → HttpClient → List HttpClient → List Command → Command → List Command → Lw → Outcome Lw
finish_cmd env client clients before cmd after lw =
    let lw' = set_uart_buf [] (with_first client clients (before ++ executed cmd ∷ after) lw) in
    elim client.timed_out [
      | true ↦ ok lw'
      | false ↦ context_manager_event env cmd.def.type (some (executed cmd)) lw'
    ]

unfoldable pub watch_cmd :
    Env → HttpClient → List HttpClient → List Command → Command → List Command → Lw → Outcome Lw
unfolding finish_cmd
watch_cmd env client clients before cmd after lw = do
  code ← process cmd.def.process_cmd cmd env.now
  elim code [
    | cmd_res_timeout ↦
        finish_cmd env (with_timeout (not (is_delay cmd.def.type) || client.timed_out) client)
          clients before cmd after lw
    | cmd_res_ok ↦ finish_cmd env client clients before cmd after lw
    | cmd_res_waiting ↦ ok lw
    | cmd_res_ignore ↦ ok lw
  ]

-- A run of new lines to bring the board back.
unfoldable pub recover_cmd :
    HttpClient → List HttpClient → List Command → Command → List Command → Lw → Outcome Lw
recover_cmd client clients before cmd after lw = do
  lw' ← uart_write (codes "\r\n\r\n\r\n\r\n") 8 lw
  ok (with_first client clients (before ++ executed cmd ∷ after) lw')

abbrev pub http_ok : Bytes
http_ok = codes "HTTP/1.1 200 OK\nContent-Type: application/json\n\n"

abbrev pub http_timeout : Bytes
http_timeout = codes "HTTP/1.1 504 Gateway Timeout\nContent-Type: application/json\n\n"

-- All commands are done. A restore that timed out starts again; a remote client gets its reply.
unfoldable pub finish_client : Env → HttpClient → Lw → Outcome Lw
unfolding reply_get_cmds c_string
finish_client env client lw = elim client.local [
  | true ↦ do
    lw' ← free_http_client client lw
    elim (client.timed_out && client.restore_context) [
      | true ↦ context_manager_event env cmd_reset none lw'
      | false ↦ ok lw'
    ]
  | false ↦ do
    json ← reply_get_cmds client.cmdq
    free_http_client client (
        http_client_write client (c_string json)
          (http_client_write client (if client.timed_out then http_timeout else http_ok) lw))
]

unfoldable pub process_complete : Env → HttpClient → List HttpClient → Lw → Outcome Lw
unfolding current_cmd watch_cmd recover_cmd finish_client
process_complete env client clients lw = elim (current_cmd client.cmdq) [
  | waiting ↦ ok lw
  | finished ↦ finish_client env client lw
  | running before cmd after ↦ watch_cmd env client clients before cmd after lw
  | failed before cmd after ↦ recover_cmd client clients before cmd after lw
]

unfoldable pub process_failed : HttpClient → Lw → Outcome Lw
process_failed client lw = do
  assert (not client.local)
  free_http_client client (http_client_write client (c_string client.error_resp) lw)

abbrev pub by_state : HttpClientState → Env → HttpClient → List HttpClient → Lw → Outcome Lw
by_state http_client_request_complete env client clients lw = process_complete env client clients lw
by_state http_client_active env client clients lw = ok lw
by_state http_client_error env client clients lw = process_failed client lw
by_state http_client_disconnected env client clients lw = process_failed client lw

unfoldable pub process_http_clients : Env → Lw → Outcome Lw
unfolding process_complete process_failed
process_http_clients env lw = elim lw.http [
  | [] ↦ ok lw
  | client ∷ clients ↦ by_state client.state env client clients lw
]
