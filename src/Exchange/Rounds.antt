-- ===== src/Exchange/Rounds.antt =====
-- Rounds of the timer in which the first client's command is not done.
use lorawanatd_canarin.Base.{
  ℕ, ◌+◌, ◌≡◌, ◌≤◌, ◌<◌, refl, ap, sym, ◌∙◌, false, Bool-cases, inl, inr, List, [], ◌∷◌, ◌++◌,
  Bytes, Outcome, ok, ◌>>=◌, arith, length, length-append, leb, >>=_ext, >>=_assoc,
}
use lorawanatd_canarin.Command.Types.{
  Command, ProcessCmd, CmdResCode, cmd_new, cmd_executing, cmd_res_waiting, cmd_buf_size,
  wait_for_ok_or_timeout,
}
use lorawanatd_canarin.Command.Wait.{
  response, contains_any, wait_for_ok, wait_for_timeout, ok_or_timeout, process,
}
use lorawanatd_canarin.Command.Responses.{OneOccurs, ok_or_timeout_iff}
use lorawanatd_canarin.State.{
  Lw, Env, HttpClient, Effect, http_client_request_complete, uart_buf_size,
}
use lorawanatd_canarin.Uart.Rx.{read_bytes, uart_io}
use lorawanatd_canarin.Uart.Tx.{uart_dev_write}
use lorawanatd_canarin.Http.Process.{watch_cmd, process_complete, process_http_clients}
use lorawanatd_canarin.Http.Late.{by_state_complete}
use lorawanatd_canarin.Http.Moves.{process_http_clients-by_state}
use lorawanatd_canarin.Daemon.Steps.{cb_timer}
use lorawanatd_canarin.Exchange.{during, AllExecuted}
use lorawanatd_canarin.Exchange.Received.{
  StaysQuiet, with_bytes, during-nothing, during-pieces, read_bytes-received,
}
use lorawanatd_canarin.Exchange.Started.{current_cmd-waiting, current_cmd-running, process_cmd-busy}
use lorawanatd_canarin.Exchange.Settled.{IsSettled, cb_timer-settled, complete-connected}

-- An answer is awaited that has not come, and there is time left.
abbrev pub StillWaits : ℕ → Command → Type 0
StillWaits now cmd = (now < cmd.epoc_timeout) × ¬ OneOccurs response cmd

ok_or_timeout-waiting :
    (cmd : Command) (now : ℕ) → StillWaits now cmd → ok_or_timeout cmd now ≡ cmd_res_waiting
unfolding ok_or_timeout wait_for_ok wait_for_timeout
ok_or_timeout-waiting cmd now (early, unanswered) = elim (Bool-cases (contains_any cmd response)) [
  | inl there ↦ absurd (unanswered ((ok_or_timeout_iff cmd now).0 (rw there refl)))
  | inr missing ↦
      let e : leb cmd.epoc_timeout now ≡ false = ground arith in
      rw (missing, ok_or_timeout) (rw e refl)
]

pub process-ok_or_timeout :
    (k : ProcessCmd) (cmd : Command) (now : ℕ) (r : CmdResCode)
    → k ≡ wait_for_ok_or_timeout
    → ok_or_timeout cmd now ≡ r
    → process k cmd now ≡ ok r
unfolding process
process-ok_or_timeout k cmd now r kind e = rw (kind, process) (rw e refl)

-- The rounds that the timer runs, each with what the UART has to read in it.
unfoldable pub rounds : List (Env × Bytes) → Lw → Outcome Lw
rounds [] lw = ok lw
rounds ((env, input) ∷ rs) lw = do lw' ← cb_timer env input lw; rounds rs lw'

pub rounds-append :
    (rs ss : List (Env × Bytes)) (lw : Lw) → rounds (rs ++ ss) lw ≡ (rounds rs lw >>= rounds ss)
unfolding rounds
rounds-append [] ss lw = refl
rounds-append ((env, input) ∷ rs) ss lw =
    >>=_ext (cb_timer env input lw) (rounds (rs ++ ss)) (λ lw'. rounds rs lw' >>= rounds ss)
      (λ lw'. rounds-append rs ss lw')
    ∙ sym (>>=_assoc (cb_timer env input lw) (rounds rs) (rounds ss))

-- All that the board sends in these rounds.
abbrev pub heard : List (Env × Bytes) → Bytes
heard [] = []
heard ((env, input) ∷ rs) = input ++ heard rs

-- At the start of each of these rounds the command's answer has not come and there is time left,
-- and in none of them the board sends a message of its own.
abbrev pub Hears : Bytes → Command → List (Env × Bytes) → Type 0
Hears buf cmd [] = Unit
Hears buf cmd ((env, input) ∷ rs) =
    StillWaits env.now cmd
    × StaysQuiet env buf input
    × Hears (buf ++ input) (with_bytes cmd input) rs

module _ (lw : Lw) (client : HttpClient) (clients : List HttpClient) (before after : List Command)
    (complete : client.state ≡ http_client_request_complete) (done : AllExecuted before) where
  process_http_clients-at :
      (env : Env) (cmds : List Command) (buf : Bytes) (q : List Bytes) (es : List Effect)
      → process_http_clients env (during lw client clients cmds buf q es)
        ≡ process_complete env
            (record client { cmdq = cmds })
            clients
            (during lw client clients cmds buf q es)
  process_http_clients-at env cmds buf q es =
      process_http_clients-by_state env (record client { cmdq = cmds }) clients
        (during lw client clients cmds buf q es) refl
      ∙ by_state_complete client.state env (record client { cmdq = cmds }) clients
          (during lw client clients cmds buf q es) complete

  pub process_http_clients-new :
      (env : Env) (cmd : Command) (buf : Bytes) (q : List Bytes) (es : List Effect)
      → cmd.state ≡ cmd_new
      → process_http_clients env (during lw client clients (before ++ cmd ∷ after) buf q es)
        ≡ ok (during lw client clients (before ++ cmd ∷ after) buf q es)
  unfolding process_complete
  process_http_clients-new env cmd buf q es new =
      process_http_clients-at env (before ++ cmd ∷ after) buf q es
      ∙ rw (current_cmd-waiting before cmd after done new, process_complete) refl

  pub process_http_clients-running :
      (env : Env) (cmd : Command) (buf : Bytes) (q : List Bytes) (es : List Effect)
      → cmd.state ≡ cmd_executing
      → process_http_clients env (during lw client clients (before ++ cmd ∷ after) buf q es)
        ≡ watch_cmd env
            (record client { cmdq = before ++ cmd ∷ after })
            clients
            before
            cmd
            after
            (during lw client clients (before ++ cmd ∷ after) buf q es)
  unfolding process_complete
  process_http_clients-running env cmd buf q es active =
      process_http_clients-at env (before ++ cmd ∷ after) buf q es
      ∙ rw (current_cmd-running before cmd after done active, process_complete) refl

  pub process_http_clients-still :
      (env : Env) (cmd : Command) (buf : Bytes) (q : List Bytes) (es : List Effect)
      → cmd.state ≡ cmd_executing
      → cmd.def.process_cmd ≡ wait_for_ok_or_timeout
      → StillWaits env.now cmd
      → process_http_clients env (during lw client clients (before ++ cmd ∷ after) buf q es)
        ≡ ok (during lw client clients (before ++ cmd ∷ after) buf q es)
  unfolding watch_cmd process
  process_http_clients-still env cmd buf q es active kind still =
      process_http_clients-running env cmd buf q es active
      ∙ rw
          (
            process-ok_or_timeout cmd.def.process_cmd cmd env.now cmd_res_waiting kind
                (ok_or_timeout-waiting cmd env.now still),
            watch_cmd,
          )
          refl

  uart_io-heard :
      (env : Env) (cmd : Command) (buf : Bytes) (es : List Effect) (input : Bytes)
      → cmd.state ≡ cmd_executing
      → length cmd.buf + length input ≤ cmd_buf_size
      → length buf + length input < uart_buf_size
      → StaysQuiet env buf input
      → uart_io env input (during lw client clients (before ++ cmd ∷ after) buf [] es)
        ≡ ok
            (during lw client clients (before ++ with_bytes cmd input ∷ after) (buf ++ input) [] es)
  unfolding uart_io uart_dev_write read_bytes
  uart_io-heard env cmd buf es [] active room space quiet =
      read_bytes-received env lw client clients before after complete done cmd buf [] es [] active
        room space quiet
  uart_io-heard env cmd buf es (b ∷ input) active room space quiet =
      read_bytes-received env lw client clients before after complete done cmd buf [] es (b ∷ input)
        active room space quiet

  -- While the command that is executing is not answered and has time left, the rounds of the timer
  -- only add what the board sends to what the command has received.
  pub rounds-heard :
      (cmd : Command) (buf : Bytes) (es : List Effect) (rs : List (Env × Bytes))
      → IsSettled lw.push clients
      → cmd.state ≡ cmd_executing
      → cmd.def.process_cmd ≡ wait_for_ok_or_timeout
      → length cmd.buf + length (heard rs) ≤ cmd_buf_size
      → length buf + length (heard rs) < uart_buf_size
      → Hears buf cmd rs
      → rounds rs (during lw client clients (before ++ cmd ∷ after) buf [] es)
        ≡ ok (
            during lw client clients
              (before ++ with_bytes cmd (heard rs) ∷ after)
              (buf ++ heard rs)
              []
              es)
  unfolding rounds
  rounds-heard cmd buf es [] settled active kind room space hears =
      ap (λ (l : Lw). ok l) (during-nothing lw client clients before after [] es cmd buf)
  rounds-heard cmd buf es ((env, input) ∷ rs) settled active kind room space (still, quiet, hears) =
      let both : length (input ++ heard rs) ≡ length input + length (heard rs) =
        length-append input (heard rs) in
      rw
        (
          cb_timer-settled env input (during lw client clients (before ++ cmd ∷ after) buf [] es)
              (settled.0, (complete-connected client.state complete, settled.1))
              (process_http_clients-still env cmd buf [] es active kind still)
              (process_cmd-busy env lw client clients before after complete done cmd buf [] es
                active)
              (uart_io-heard env cmd buf es input active (omega arith) (omega arith) quiet),
          rounds,
        )
        (rounds-heard (with_bytes cmd input) (buf ++ input) es rs settled active kind
            (rw (length-append cmd.buf input) (omega arith))
            (rw (length-append buf input) (omega arith)) hears
          ∙ ap (λ (l : Lw). ok l)
              (during-pieces lw client clients before after [] es cmd buf input (heard rs)))
