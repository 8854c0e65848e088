-- ===== src/Uart/Async.antt =====
-- What the board sends by itself: `run_async_cmd`, `async_recv`, `async_has_more_tx` and
-- `remove_buf_substr` of src/command.c.
use lorawanatd_canarin.Base.{
  ℕ, ◌+◌, ◌-◌, List, [], ◌∷◌, ◌++◌, none, some, Bytes, codes, c_string, c_prefix, strncpy, Outcome,
  ok, in_bounds, ◌>>=◌, ◌>>◌, ltb, if◌then◌else◌, length, take, drop,
}
use lorawanatd_canarin.Util.Contains.{is_buffer_contains}
use lorawanatd_canarin.Command.Types.{
  CommandDef, AsyncCmd, async_recv, async_has_more_tx, null_async, cmd_async, cmd_async_recv,
  group_eq,
}
use lorawanatd_canarin.Command.Table.{cmd_def_list}
use lorawanatd_canarin.State.{Lw, Env, UartDef}
use lorawanatd_canarin.Push.{push_recv, push_more_tx}
use lorawanatd_canarin.Context.Event.{context_manager_event}

-- The text without the bytes from `so` to `eo`. It is built as a C string and copied back over
-- the buffer; a NUL in the buffer ends one of the two parts early.
unfoldable pub cut_out : Bytes → ℕ → ℕ → Bytes
unfolding c_string strncpy
cut_out buf so eo =
    let text = c_string (strncpy so buf) ++ c_string (drop eo buf) in
    take (length buf + so - eo) (text ++ 0 ∷ drop (length text + 1) buf)

abbrev pub set_uart_buf : Bytes → Lw → Lw
set_uart_buf buf lw = record lw { uart = record uart { buf = buf } }
  where
    uart : UartDef
    uart = lw.uart

unfoldable pub remove_buf_substr : ℕ → ℕ → Lw → Lw
unfolding cut_out
remove_buf_substr so eo lw = set_uart_buf (cut_out lw.uart.buf so eo) lw

-- The loop over the groups: `strncat` each, with a comma behind all but the last.
unfoldable pub join_groups : Bytes → List (ℕ × ℕ) → Bytes
unfolding c_prefix
join_groups buf [] = []
join_groups buf ((so, eo) ∷ []) = c_prefix (eo - so) (drop so buf)
join_groups buf ((so, eo) ∷ g ∷ gs) =
    c_prefix (eo - so) (drop so buf) ++ b',' ∷ join_groups buf (g ∷ gs)

abbrev pub msgbuf_size : ℕ
msgbuf_size = 255

-- A match is pushed to the clients, cut out of the buffer, and counted. The message is built in
-- `char msgbuf[255]`.
unfoldable pub run_async_recv : Env → Lw → Outcome Lw
unfolding join_groups remove_buf_substr
run_async_recv env lw = elim (env.regexec (c_string lw.uart.buf)) [
  | none ↦ ok lw
  | some m ↦ do
    let msg = join_groups lw.uart.buf m.groups
    in_bounds (ltb (length msg) msgbuf_size)
    context_manager_event env cmd_async_recv none
        (remove_buf_substr m.rm_so m.rm_eo (push_recv msg lw))
]

abbrev pub more_tx_text : Bytes
more_tx_text = codes "Network Server is asking for an uplink transmission\n\r"

-- The text stays in the buffer.
unfoldable pub run_async_has_more_tx : ℕ → Lw → Lw
run_async_has_more_tx buflen lw =
    if is_buffer_contains lw.uart.buf buflen more_tx_text then push_more_tx lw else lw

unfoldable pub call_async : AsyncCmd → Env → ℕ → Lw → Outcome Lw
unfolding run_async_recv run_async_has_more_tx
call_async async_recv env buflen lw = run_async_recv env lw
call_async async_has_more_tx env buflen lw = ok (run_async_has_more_tx buflen lw)
call_async null_async env buflen lw = ok lw

-- The loop over the command definitions. `buf` is the buffer itself, so each call sees what the
-- ones before it left there; `buflen` is the length that the loop began with.
unfoldable pub run_async_defs : List CommandDef → Env → ℕ → Lw → Outcome Lw
unfolding call_async
run_async_defs [] env buflen lw = ok lw
run_async_defs (def ∷ defs) env buflen lw = do
  lw' ← if group_eq def.group cmd_async then call_async def.async_cmd env buflen lw else ok lw
  run_async_defs defs env buflen lw'

unfoldable pub run_async_cmd : Env → Lw → Outcome Lw
unfolding run_async_defs cmd_def_list
run_async_cmd env lw = run_async_defs cmd_def_list env (length lw.uart.buf) lw
