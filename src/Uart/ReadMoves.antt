-- ===== src/Uart/ReadMoves.antt =====
-- The bytes that the board sends leave the clients' commands in their states; of the clients they
-- change nothing but what a counted message queues.
use lorawanatd_canarin.Base.{
  ℕ, ◌+◌, ◌≡◌, refl, sym, subst, ap, ◌∙◌, List, [], ◌∷◌, ◌++◌, arith, Bytes, c_string, in_bounds,
  Ensures, returns, Ensures->>=, Ensures-any, Bool-cases, Option-cases, inl, inr, length, ltb, leb,
}
use lorawanatd_canarin.Command.Types.{
  Command, CommandDef, CmdState, AsyncCmd, async_recv, async_has_more_tx, null_async, cmd_async,
  group_eq, cmd_buf_size,
}
use lorawanatd_canarin.Command.Table.{cmd_def_list}
use lorawanatd_canarin.Command.Queue.{set_active_cmd_uart_buf, append_response, is_executing}
use lorawanatd_canarin.State.{Lw, Env, HttpClient, PushClient, uart_buf_size}
use lorawanatd_canarin.Push.{push_recv, push_recv_to, push_more_tx, push_more_tx_to}
use lorawanatd_canarin.Context.Event.{count_event, context_manager_event}
use lorawanatd_canarin.Context.Moves.{count_event-Makes}
use lorawanatd_canarin.Uart.Tx.{uart_dev_write}
use lorawanatd_canarin.Uart.Async.{
  run_async_recv, run_async_has_more_tx, call_async, run_async_defs, run_async_cmd, set_uart_buf,
  join_groups, msgbuf_size, remove_buf_substr, more_tx_text,
}
use lorawanatd_canarin.Uart.Rx.{
  is_error, give_to_first, set_http_client_uart_buf, uart_handle_post_read, read_bytes, uart_io,
}
use lorawanatd_canarin.Util.Contains.{is_buffer_contains}
use lorawanatd_canarin.Sessions.{Session, Moves, stay}
use lorawanatd_canarin.Sessions.Valid.{IsValid}
use lorawanatd_canarin.Sessions.View.{states, sessions, view, Makes, Makes->>=}

push_recv_to-view :
    (cs : List PushClient) (buf : Bytes) (lw : Lw) → view (push_recv_to cs buf lw) ≡ view lw
unfolding push_recv_to
push_recv_to-view [] buf lw = refl
push_recv_to-view (c ∷ cs) buf lw = push_recv_to-view cs buf _ ∙ ground arith

push_more_tx_to-view : (cs : List PushClient) (lw : Lw) → view (push_more_tx_to cs lw) ≡ view lw
unfolding push_more_tx_to
push_more_tx_to-view [] lw = refl
push_more_tx_to-view (c ∷ cs) lw = push_more_tx_to-view cs _ ∙ ground arith

run_async_recv-Makes : (env : Env) (lw : Lw) → Makes lw (run_async_recv env lw)
unfolding run_async_recv
run_async_recv-Makes env lw = elim (Option-cases (env.regexec (c_string lw.uart.buf))) [
  | inl e ↦ rw (e, run_async_recv) (returns lw stay)
  | inr (m, e) ↦
      rw (e, run_async_recv)
        (Ensures->>=
          (Ensures-any (in_bounds (ltb (length (join_groups lw.uart.buf m.groups)) msgbuf_size)))
          λ _ _.
            unfold context_manager_event push_recv remove_buf_substr in
            subst
              (λ q.
                Ensures (λ (lw' : Lw). Moves q (view lw'))
                  (count_event (
                    remove_buf_substr m.rm_so m.rm_eo
                      (push_recv (join_groups lw.uart.buf m.groups) lw))))
              (push_recv_to-view lw.push _ lw) (count_event-Makes _))
]

run_async_has_more_tx-view : (n : ℕ) (lw : Lw) → view (run_async_has_more_tx n lw) ≡ view lw
unfolding run_async_has_more_tx push_more_tx
run_async_has_more_tx-view n lw =
    elim (Bool-cases (is_buffer_contains lw.uart.buf n more_tx_text)) [
      | inl found ↦ rw found (push_more_tx_to-view lw.push lw)
      | inr missing ↦ rw missing
    ]

call_async-Makes : (a : AsyncCmd) (env : Env) (n : ℕ) (lw : Lw) → Makes lw (call_async a env n lw)
unfolding call_async
call_async-Makes async_recv env n lw = run_async_recv-Makes env lw
call_async-Makes async_has_more_tx env n lw = returns _ (rw (run_async_has_more_tx-view n lw) stay)
call_async-Makes null_async env n lw = returns lw stay

run_async_defs-Makes :
    (defs : List CommandDef) (env : Env) (n : ℕ) (lw : Lw)
    → IsValid (view lw)
    → Makes lw (run_async_defs defs env n lw)
unfolding run_async_defs
run_async_defs-Makes [] env n lw v = returns lw stay
run_async_defs-Makes (d ∷ ds) env n lw v = elim (Bool-cases (group_eq d.group cmd_async)) [
  | inl asyn ↦
      rw (asyn, run_async_defs)
        (Makes->>= lw v (call_async-Makes d.async_cmd env n lw) (run_async_defs-Makes ds env n))
  | inr other ↦ rw (other, run_async_defs) (run_async_defs-Makes ds env n lw v)
]

append_response-state :
    (cmd : Command) (buf : Bytes)
    → Ensures (λ (c : Command). c.state ≡ cmd.state) (append_response cmd buf)
unfolding append_response
append_response-state cmd buf =
    Ensures->>= (Ensures-any (in_bounds (leb (length cmd.buf + length buf) cmd_buf_size)))
      λ _ _. returns _ refl

set_active-states :
    (cmds : List Command) (buf : Bytes)
    → Ensures (λ (q : List Command). states q ≡ states cmds) (set_active_cmd_uart_buf cmds buf)
unfolding set_active_cmd_uart_buf
set_active-states [] buf = returns [] refl
set_active-states (c ∷ cs) buf = elim (Bool-cases (is_executing c.state)) [
  | inl on ↦
      rw (on, set_active_cmd_uart_buf)
        (Ensures->>= (append_response-state c buf) λ d e. returns _ (ap (λ s. s ∷ states cs) e))
  | inr off ↦
      rw (off, set_active_cmd_uart_buf)
        (Ensures->>= (set_active-states cs buf) λ q e. returns _ (ap (◌∷◌ c.state) e))
]

give_to_first-sessions :
    (cs : List HttpClient) (buf : Bytes)
    → Ensures (λ (q : List HttpClient). sessions q ≡ sessions cs) (give_to_first cs buf)
unfolding give_to_first
give_to_first-sessions [] buf = returns [] refl
give_to_first-sessions (c ∷ cs) buf = elim (Bool-cases (is_error c.state)) [
  | inl bad ↦ rw (bad, give_to_first) (returns _ refl)
  | inr good ↦
      rw (good, give_to_first)
        (Ensures->>= (set_active-states c.cmdq buf) λ q e. returns _ (
          ap
            (λ (ss : List CmdState).
              record { id = c.id; local = c.local; state = c.state; cmds = ss } ∷ sessions cs)
            e))
]

set_http_client-Makes : (buf : Bytes) (lw : Lw) → Makes lw (set_http_client_uart_buf buf lw)
unfolding set_http_client_uart_buf
set_http_client-Makes buf lw = Ensures->>= (give_to_first-sessions lw.http buf) λ q e. returns _ (
    subst (λ (ss : List Session). Moves (view lw) (record { next = lw.next_id; queue = ss }))
      (sym e) stay)

pub uart_handle_post_read-Makes :
    (env : Env) (buf : Bytes) (lw : Lw)
    → IsValid (view lw)
    → Makes lw (uart_handle_post_read env buf lw)
unfolding uart_handle_post_read run_async_cmd
uart_handle_post_read-Makes env buf lw v =
    Ensures->>= (Ensures-any (in_bounds (ltb (length lw.uart.buf + length buf) uart_buf_size)))
      λ _ _.
        Makes->>= lw v
          (run_async_defs-Makes cmd_def_list env _ (set_uart_buf (lw.uart.buf ++ buf) lw) v)
          λ lw' v'. set_http_client-Makes buf lw'

read_bytes-Makes :
    (env : Env) (input : Bytes) (lw : Lw) → IsValid (view lw) → Makes lw (read_bytes env input lw)
unfolding read_bytes
read_bytes-Makes env [] lw v = returns lw stay
read_bytes-Makes env (c ∷ s) lw v =
    Makes->>= lw v (uart_handle_post_read-Makes env (c ∷ []) lw v) (read_bytes-Makes env s)

uart_dev_write-view : (env : Env) (lw : Lw) → view (uart_dev_write env lw) ≡ view lw
unfolding uart_dev_write
uart_dev_write-view env lw = ground arith

pub uart_io-Makes :
    (env : Env) (input : Bytes) (lw : Lw) → IsValid (view lw) → Makes lw (uart_io env input lw)
unfolding uart_io
uart_io-Makes env [] lw v = returns _ (rw (uart_dev_write-view env lw) stay)
uart_io-Makes env (c ∷ s) lw v = read_bytes-Makes env (c ∷ s) lw v
