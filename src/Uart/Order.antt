-- ===== src/Uart/Order.antt =====
-- What the UART does to the queue of clients: at most the first client has a command that is
-- executing, and its commands stay in order.
use lorawanatd_canarin.Base.{
  ℕ, ◌+◌, ◌≡◌, refl, subst, sym, ◌∙◌, true, List, [], ◌∷◌, ◌++◌, none, arith, Bytes, c_string,
  Outcome, in_bounds, Ensures, returns, Ensures->>=, Ensures-any, Ensures-eq, Bool-cases,
  Option-cases, inl, inr, All-append, ltb, length,
}
use lorawanatd_canarin.Command.Types.{
  CommandDef, AsyncCmd, async_recv, async_has_more_tx, null_async, cmd_async, cmd_internal,
  group_eq,
}
use lorawanatd_canarin.Command.Table.{cmd_def_list}
use lorawanatd_canarin.Command.Order.{
  all_new, is_resting, in_order, in_order-is_resting, is_resting-all_new, all_new-cons,
  deref-make_cmd, set_active-in_order,
}
use lorawanatd_canarin.Command.Queue.{set_active_cmd_uart_buf}
use lorawanatd_canarin.State.{Lw, Env, HttpClient, PushClient, uart_buf_size}
use lorawanatd_canarin.Push.{push_recv, push_recv_to, push_more_tx, push_more_tx_to}
use lorawanatd_canarin.Context.Params.{update_cntr}
use lorawanatd_canarin.Context.Firmware.{generate_ctx}
use lorawanatd_canarin.Context.Event.{count_event, context_manager_event}
use lorawanatd_canarin.Context.Order.{AllResting}
use lorawanatd_canarin.Uart.Tx.{uart_dev_write}
use lorawanatd_canarin.Uart.Async.{
  run_async_recv, run_async_has_more_tx, call_async, run_async_defs, run_async_cmd, set_uart_buf,
  join_groups, msgbuf_size, remove_buf_substr, more_tx_text,
}
use lorawanatd_canarin.Uart.Rx.{
  is_error, give_to_first, set_http_client_uart_buf, uart_handle_post_read, read_bytes, uart_io,
}
use lorawanatd_canarin.Util.Contains.{is_buffer_contains}

-- At most the first client has a command that is executing, and that is the only one.
abbrev pub IsSerial : List HttpClient → Type 0
IsSerial [] = Unit
IsSerial (c ∷ cs) = (in_order c.cmdq ≡ true) × AllResting cs

abbrev pub KeepsSerial : Outcome Lw → Type 0
KeepsSerial = Ensures (λ (lw : Lw). IsSerial lw.http)

pub IsSerial-AllResting : (cs : List HttpClient) → AllResting cs → IsSerial cs
IsSerial-AllResting [] h = tt
IsSerial-AllResting (c ∷ cs) h = (in_order-is_resting c.cmdq h.0, h.1)

pub IsSerial-append :
    (cs : List HttpClient) (c : HttpClient)
    → IsSerial cs
    → is_resting c.cmdq ≡ true
    → IsSerial (cs ++ c ∷ [])
IsSerial-append [] c h new = (in_order-is_resting c.cmdq new, tt)
IsSerial-append (d ∷ cs) c h new = (h.0, All-append _ cs (c ∷ []) h.1 (new, tt))

generate_ctx-serial : (lw : Lw) → IsSerial lw.http → KeepsSerial (generate_ctx lw)
unfolding generate_ctx
generate_ctx-serial lw h = Ensures->>= (deref-make_cmd _ _ none 5 cmd_internal) λ delay new.
    Ensures->>= (deref-make_cmd _ _ none 0 cmd_internal) λ acquire new'. returns _ (
      IsSerial-append lw.http _ h (
        is_resting-all_new _
          (all_new-cons delay _ new (all_new-cons acquire [] new' (unfold all_new in refl)))))

count_event-serial : (lw : Lw) → IsSerial lw.http → KeepsSerial (count_event lw)
unfolding count_event
count_event-serial lw h = elim (Bool-cases (update_cntr lw.ctx_mngr).1) [
  | inl tenth ↦ rw (tenth, count_event) (generate_ctx-serial _ h)
  | inr other ↦ rw (other, count_event) (returns _ h)
]

push_recv_to-http :
    (cs : List PushClient) (buf : Bytes) (lw : Lw) → (push_recv_to cs buf lw).http ≡ lw.http
unfolding push_recv_to
push_recv_to-http [] buf lw = refl
push_recv_to-http (c ∷ cs) buf lw = push_recv_to-http cs buf _ ∙ ground arith

push_more_tx_to-http : (cs : List PushClient) (lw : Lw) → (push_more_tx_to cs lw).http ≡ lw.http
unfolding push_more_tx_to
push_more_tx_to-http [] lw = refl
push_more_tx_to-http (c ∷ cs) lw = push_more_tx_to-http cs _ ∙ ground arith

run_async_recv-serial :
    (env : Env) (lw : Lw) → IsSerial lw.http → KeepsSerial (run_async_recv env lw)
unfolding run_async_recv
run_async_recv-serial env lw h = elim (Option-cases (env.regexec (c_string lw.uart.buf))) [
  | inl e ↦ rw (e, run_async_recv) (returns lw h)
  | inr (m, e) ↦
      rw (e, run_async_recv)
        (Ensures->>=
          (Ensures-any (in_bounds (ltb (length (join_groups lw.uart.buf m.groups)) msgbuf_size)))
          λ _ _.
            unfold context_manager_event in
            count_event-serial _ (
              unfold push_recv remove_buf_substr in
              subst IsSerial (sym (push_recv_to-http lw.push _ lw)) h))
]

run_async_has_more_tx-http : (n : ℕ) (lw : Lw) → (run_async_has_more_tx n lw).http ≡ lw.http
unfolding run_async_has_more_tx push_more_tx
run_async_has_more_tx-http n lw =
    elim (Bool-cases (is_buffer_contains lw.uart.buf n more_tx_text)) [
      | inl found ↦ rw found (push_more_tx_to-http lw.push lw)
      | inr missing ↦ rw missing
    ]

call_async-serial :
    (a : AsyncCmd) (env : Env) (n : ℕ) (lw : Lw)
    → IsSerial lw.http
    → KeepsSerial (call_async a env n lw)
unfolding call_async
call_async-serial async_recv env n lw h = run_async_recv-serial env lw h
call_async-serial async_has_more_tx env n lw h =
    returns _ (subst IsSerial (sym (run_async_has_more_tx-http n lw)) h)
call_async-serial null_async env n lw h = returns lw h

run_async_defs-serial :
    (defs : List CommandDef) (env : Env) (n : ℕ) (lw : Lw)
    → IsSerial lw.http
    → KeepsSerial (run_async_defs defs env n lw)
unfolding run_async_defs
run_async_defs-serial [] env n lw h = returns lw h
run_async_defs-serial (d ∷ ds) env n lw h = elim (Bool-cases (group_eq d.group cmd_async)) [
  | inl asyn ↦
      rw (asyn, run_async_defs)
        (Ensures->>= (call_async-serial d.async_cmd env n lw h) (run_async_defs-serial ds env n))
  | inr other ↦ rw (other, run_async_defs) (run_async_defs-serial ds env n lw h)
]

run_async_cmd-serial : (env : Env) (lw : Lw) → IsSerial lw.http → KeepsSerial (run_async_cmd env lw)
unfolding run_async_cmd
run_async_cmd-serial env lw h = run_async_defs-serial cmd_def_list env _ lw h

give_to_first-IsSerial :
    (cs : List HttpClient) (buf : Bytes) → IsSerial cs → Ensures IsSerial (give_to_first cs buf)
unfolding give_to_first
give_to_first-IsSerial [] buf h = returns [] tt
give_to_first-IsSerial (c ∷ cs) buf h = elim (Bool-cases (is_error c.state)) [
  | inl bad ↦ rw (bad, give_to_first) (returns _ h)
  | inr good ↦
      rw (good, give_to_first)
        (Ensures->>=
          (Ensures-eq (set_active_cmd_uart_buf c.cmdq buf)
            (λ cmds e. set_active-in_order c.cmdq buf h.0 e))
          λ cmds order. returns _ (order, h.1))
]

pub uart_handle_post_read-serial :
    (env : Env) (buf : Bytes) (lw : Lw)
    → IsSerial lw.http
    → KeepsSerial (uart_handle_post_read env buf lw)
unfolding uart_handle_post_read set_http_client_uart_buf
uart_handle_post_read-serial env buf lw h =
    Ensures->>= (Ensures-any (in_bounds (ltb (length lw.uart.buf + length buf) uart_buf_size)))
      λ _ _.
        Ensures->>= (run_async_cmd-serial env (set_uart_buf (lw.uart.buf ++ buf) lw) h)
          λ lw' serial.
            Ensures->>= (give_to_first-IsSerial lw'.http buf serial) λ clients kept. returns _ kept

read_bytes-serial :
    (env : Env) (input : Bytes) (lw : Lw) → IsSerial lw.http → KeepsSerial (read_bytes env input lw)
unfolding read_bytes
read_bytes-serial env [] lw h = returns lw h
read_bytes-serial env (c ∷ s) lw h =
    Ensures->>= (uart_handle_post_read-serial env (c ∷ []) lw h) (read_bytes-serial env s)

uart_dev_write-http : (env : Env) (lw : Lw) → (uart_dev_write env lw).http ≡ lw.http
unfolding uart_dev_write
uart_dev_write-http env lw = ground arith

pub uart_io-serial :
    (env : Env) (input : Bytes) (lw : Lw) → IsSerial lw.http → KeepsSerial (uart_io env input lw)
unfolding uart_io
uart_io-serial env [] lw h = returns _ (subst IsSerial (sym (uart_dev_write-http env lw)) h)
uart_io-serial env (c ∷ s) lw h = read_bytes-serial env (c ∷ s) lw h
