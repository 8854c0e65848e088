-- ===== src/Uart/Rx.antt =====
-- The bytes that the board sends: `uart_handle_post_read`, `set_http_client_uart_buf` of
-- src/http.c, and the loop of `uart_io`.
use lorawanatd_canarin.Base.{
  ◌+◌, Bool, true, false, List, [], ◌∷◌, ◌++◌, Bytes, Outcome, ok, in_bounds, ◌>>=◌, ◌>>◌, ltb,
  length,
}
use lorawanatd_canarin.Command.Queue.{set_active_cmd_uart_buf}
use lorawanatd_canarin.State.{
  Lw, Env, HttpClient, HttpClientState, http_client_error, uart_buf_size,
}
use lorawanatd_canarin.Uart.Async.{run_async_cmd, set_uart_buf}
use lorawanatd_canarin.Uart.Tx.{uart_dev_write}

abbrev pub is_error : HttpClientState → Bool
is_error http_client_error = true
is_error _ = false

-- The first client's active command takes the bytes.
unfoldable pub give_to_first : List HttpClient → Bytes → Outcome (List HttpClient)
give_to_first [] buf = ok []
give_to_first (client ∷ clients) buf = elim (is_error client.state) [
  | true ↦ ok (client ∷ clients)
  | false ↦ do
    cmds ← set_active_cmd_uart_buf client.cmdq buf
    ok (record client { cmdq = cmds } ∷ clients)
]

unfoldable pub set_http_client_uart_buf : Bytes → Lw → Outcome Lw
unfolding give_to_first
set_http_client_uart_buf buf lw = do
  clients ← give_to_first lw.http buf
  ok (record lw { http = clients })

-- The bytes and a terminator behind them have to fit into the buffer.
unfoldable pub uart_handle_post_read : Env → Bytes → Lw → Outcome Lw
unfolding set_http_client_uart_buf
uart_handle_post_read env buf lw = do
  in_bounds (ltb (length lw.uart.buf + length buf) uart_buf_size)
  lw' ← run_async_cmd env (set_uart_buf (lw.uart.buf ++ buf) lw)
  set_http_client_uart_buf buf lw'

-- `uart_dev_read` until there is nothing to read: each byte is handled by itself.
unfoldable pub read_bytes : Env → Bytes → Lw → Outcome Lw
unfolding uart_handle_post_read
read_bytes env [] lw = ok lw
read_bytes env (c ∷ s) lw = do lw' ← uart_handle_post_read env (c ∷ []) lw; read_bytes env s lw'

-- `input` is what can be read in this round. A text is written only if nothing was.
unfoldable pub uart_io : Env → Bytes → Lw → Outcome Lw
unfolding read_bytes
uart_io env input lw = elim input [
  | [] ↦ ok (uart_dev_write env lw)
  | c ∷ s ↦ read_bytes env (c ∷ s) lw
]
