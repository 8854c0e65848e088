-- ===== src/Exchange/Received.antt =====
-- The bytes that the board sends reach the command that is executing.
use lorawanatd_canarin.Base.{
  ◌+◌, ◌≡◌, ◌≤◌, ◌<◌, refl, ap, sym, ◌∙◌, subst, true, false, List, [], ◌∷◌, ◌++◌, append_assoc,
  append-nil, Bytes, none, c_string, ok, arith, length, length-append, ltb, leb, Bool-cases, inl,
  inr,
}
use lorawanatd_canarin.Command.Types.{
  Command, CommandDef, AsyncCmd, async_recv, async_has_more_tx, null_async, cmd_executing,
  cmd_async, cmd_buf_size, group_eq,
}
use lorawanatd_canarin.Command.Table.{cmd_def_list}
use lorawanatd_canarin.Command.Queue.{append_response, set_active_cmd_uart_buf}
use lorawanatd_canarin.Util.Contains.{is_buffer_contains}
use lorawanatd_canarin.State.{
  Lw, Env, HttpClient, HttpClientState, Effect, http_client_request_complete, uart_buf_size,
}
use lorawanatd_canarin.Uart.Async.{
  more_tx_text, run_async_recv, run_async_has_more_tx, call_async, run_async_defs, run_async_cmd,
}
use lorawanatd_canarin.Uart.Rx.{
  is_error, give_to_first, set_http_client_uart_buf, uart_handle_post_read, read_bytes,
}
use lorawanatd_canarin.Exchange.{during, AllExecuted}

-- No message that the board sends by itself stands in the buffer.
abbrev pub IsQuiet : Env → Bytes → Type 0
IsQuiet env buf =
    (env.regexec (c_string buf) ≡ none) × (is_buffer_contains buf (length buf) more_tx_text ≡ false)

-- Nor does one at any time while these bytes arrive.
abbrev pub StaysQuiet : Env → Bytes → Bytes → Type 0
StaysQuiet env buf input = (p s : Bytes) → input ≡ p ++ s → IsQuiet env (buf ++ p)

call_async-quiet :
    (a : AsyncCmd) (env : Env) (lw : Lw)
    → IsQuiet env lw.uart.buf
    → call_async a env (length lw.uart.buf) lw ≡ ok lw
unfolding call_async run_async_recv run_async_has_more_tx
call_async-quiet async_recv env lw (none', still) = rw (none', run_async_recv) refl
call_async-quiet async_has_more_tx env lw (none', still) = rw still refl
call_async-quiet null_async env lw quiet = refl

run_async_defs-quiet :
    (defs : List CommandDef) (env : Env) (lw : Lw)
    → IsQuiet env lw.uart.buf
    → run_async_defs defs env (length lw.uart.buf) lw ≡ ok lw
unfolding run_async_defs
run_async_defs-quiet [] env lw quiet = refl
run_async_defs-quiet (def ∷ defs) env lw quiet = elim (Bool-cases (group_eq def.group cmd_async)) [
  | inl async ↦
      rw (async, call_async-quiet def.async_cmd env lw quiet)
        (run_async_defs-quiet defs env lw quiet)
  | inr other ↦ rw other (run_async_defs-quiet defs env lw quiet)
]

-- The command with these bytes behind what it has received.
abbrev pub with_bytes : Command → Bytes → Command
with_bytes cmd bytes = record cmd { buf = cmd.buf ++ bytes }

module _ (lw : Lw) (client : HttpClient) (clients : List HttpClient) (before after : List Command)
    (q : List Bytes) (es : List Effect) where
  -- Nothing more, and two pieces.
  pub during-nothing :
      (cmd : Command) (buf : Bytes)
      → during lw client clients (before ++ cmd ∷ after) buf q es
        ≡ during lw client clients (before ++ with_bytes cmd [] ∷ after) (buf ++ []) q es
  during-nothing cmd buf =
      ap (λ (b : Bytes). during lw client clients (before ++ cmd ∷ after) b q es)
        (sym (append-nil buf))
      ∙ ap
          (λ (b : Bytes).
            during lw client clients (before ++ record cmd { buf = b } ∷ after) (buf ++ []) q es)
          (sym (append-nil cmd.buf))

  pub during-pieces :
      (cmd : Command) (buf a b : Bytes)
      → during lw client clients
          (before ++ with_bytes (with_bytes cmd a) b ∷ after)
          ((buf ++ a) ++ b)
          q
          es
        ≡ during lw client clients
            (before ++ with_bytes cmd (a ++ b) ∷ after)
            (buf ++ (a ++ b))
            q
            es
  during-pieces cmd buf a b =
      ap
        (λ (u : Bytes).
          during lw client clients (before ++ with_bytes (with_bytes cmd a) b ∷ after) u q es)
        (append_assoc buf a b)
      ∙ ap
          (λ (u : Bytes).
            during lw client clients (before ++ record cmd { buf = u } ∷ after) (buf ++ (a ++ b)) q
              es)
          (append_assoc cmd.buf a b)

set_active-first :
    (before : List Command) (cmd : Command) (after : List Command) (bytes : Bytes)
    → AllExecuted before
    → cmd.state ≡ cmd_executing
    → length cmd.buf + length bytes ≤ cmd_buf_size
    → set_active_cmd_uart_buf (before ++ cmd ∷ after) bytes
      ≡ ok (before ++ with_bytes cmd bytes ∷ after)
unfolding set_active_cmd_uart_buf append_response
set_active-first [] cmd after bytes done active room =
    let fits : leb (length cmd.buf + length bytes) cmd_buf_size ≡ true = ground arith in
    rw active (rw fits refl)
set_active-first (c ∷ before) cmd after bytes done active room =
    rw (done.0) (rw (set_active-first before cmd after bytes done.1 active room) refl)

complete-not_error : (s : HttpClientState) → s ≡ http_client_request_complete → is_error s ≡ false
complete-not_error s e = rw e refl

module _ (env : Env) (lw : Lw) (client : HttpClient) (clients : List HttpClient)
    (before after : List Command) (complete : client.state ≡ http_client_request_complete)
    (done : AllExecuted before) where
  give-first :
      (cmd : Command) (buf : Bytes) (q : List Bytes) (es : List Effect) (bytes : Bytes)
      → cmd.state ≡ cmd_executing
      → length cmd.buf + length bytes ≤ cmd_buf_size
      → set_http_client_uart_buf bytes (during lw client clients (before ++ cmd ∷ after) buf q es)
        ≡ ok (during lw client clients (before ++ with_bytes cmd bytes ∷ after) buf q es)
  unfolding set_http_client_uart_buf give_to_first
  give-first cmd buf q es bytes active room =
      rw (complete-not_error client.state complete, give_to_first)
        (rw (set_active-first before cmd after bytes done active room) refl)

  handle-received :
      (cmd : Command) (buf : Bytes) (q : List Bytes) (es : List Effect) (bytes : Bytes)
      → cmd.state ≡ cmd_executing
      → length cmd.buf + length bytes ≤ cmd_buf_size
      → length buf + length bytes < uart_buf_size
      → IsQuiet env (buf ++ bytes)
      → uart_handle_post_read env bytes (during lw client clients (before ++ cmd ∷ after) buf q es)
        ≡ ok (during lw client clients (before ++ with_bytes cmd bytes ∷ after) (buf ++ bytes) q es)
  unfolding uart_handle_post_read run_async_cmd
  handle-received cmd buf q es bytes active room space quiet =
      let fits : ltb (length buf + length bytes) uart_buf_size ≡ true = ground arith in
      let cmds = before ++ cmd ∷ after in
      rw
        (
          fits,
          run_async_defs-quiet cmd_def_list env (during lw client clients cmds (buf ++ bytes) q es)
              quiet,
        )
        (give-first cmd (buf ++ bytes) q es bytes active room)

  -- Bytes that the board sends while a command of the first client is executing, and that hold
  -- none of its own messages, come one by one to the end of what that command has received.
  pub read_bytes-received :
      (cmd : Command) (buf : Bytes) (q : List Bytes) (es : List Effect) (input : Bytes)
      → cmd.state ≡ cmd_executing
      → length cmd.buf + length input ≤ cmd_buf_size
      → length buf + length input < uart_buf_size
      → StaysQuiet env buf input
      → read_bytes env input (during lw client clients (before ++ cmd ∷ after) buf q es)
        ≡ ok (during lw client clients (before ++ with_bytes cmd input ∷ after) (buf ++ input) q es)
  unfolding read_bytes
  read_bytes-received cmd buf q es [] active room space quiet =
      ap (λ (l : Lw). ok l) (during-nothing lw client clients before after q es cmd buf)
  read_bytes-received cmd buf q es (b ∷ input) active room space quiet =
      rw
        (handle-received cmd buf q es (b ∷ []) active (omega arith) (omega arith)
          (quiet (b ∷ []) input refl))
        (read_bytes-received (with_bytes cmd (b ∷ [])) (buf ++ b ∷ []) q es input active
            (rw (length-append cmd.buf (b ∷ [])) (omega arith))
            (rw (length-append buf (b ∷ [])) (omega arith))
            (λ p s e.
              subst (IsQuiet env) (sym (append_assoc buf (b ∷ []) p))
                (quiet (b ∷ p) s (ap (◌∷◌ b) e)))
          ∙ ap (λ (l : Lw). ok l)
              (during-pieces lw client clients before after q es cmd buf (b ∷ []) input))
