-- ===== src/Exchange/Started.antt =====
-- The next command of the first client is started: its text and the enter key go to the board.
use lorawanatd_canarin.Base.{
  ℕ, ◌+◌, ◌≡◌, if-false, refl, ap, Bool, Outcome, true, false, List, [], ◌∷◌, ◌++◌, append_assoc,
  Bytes, codes, ok, arith, length,
}
use lorawanatd_canarin.Command.Types.{Command, cmd_new, cmd_executing}
use lorawanatd_canarin.Command.Construct.{construct, started, get_epoc_timeout}
use lorawanatd_canarin.State.{
  Lw, Env, HttpClient, HttpClientState, Effect, uart_written, http_client_request_complete,
}
use lorawanatd_canarin.Uart.Tx.{uart_dev_write, uart_reset, set_tx_q}
use lorawanatd_canarin.Uart.Fifo.{FitsTx, uart_write-appends, dev_write-first}
use lorawanatd_canarin.Uart.Rx.{uart_io}
use lorawanatd_canarin.Uart.Run.{
  start, busy, idle, next_cmd, executing, is_reset, is_complete, start_cmd, process_cmd,
}
use lorawanatd_canarin.Http.Process.{waiting, running, current_cmd}
use lorawanatd_canarin.Exchange.{during, AllExecuted}

abbrev pub enter : Bytes
enter = codes "\r\n"

next_cmd-start :
    (before : List Command) (cmd : Command) (after : List Command)
    → AllExecuted before
    → cmd.state ≡ cmd_new
    → next_cmd (before ++ cmd ∷ after) ≡ start before cmd after
unfolding next_cmd
next_cmd-start [] cmd after done new = rw (new, next_cmd) refl
next_cmd-start (c ∷ before) cmd after done new =
    rw (done.0, next_cmd) (rw (next_cmd-start before cmd after done.1 new) refl)

next_cmd-busy :
    (before : List Command) (cmd : Command) (after : List Command)
    → AllExecuted before
    → cmd.state ≡ cmd_executing
    → next_cmd (before ++ cmd ∷ after) ≡ busy
unfolding next_cmd
next_cmd-busy [] cmd after done active = rw (active, next_cmd) refl
next_cmd-busy (c ∷ before) cmd after done active =
    rw (done.0, next_cmd) (rw (next_cmd-busy before cmd after done.1 active) refl)

pub current_cmd-waiting :
    (before : List Command) (cmd : Command) (after : List Command)
    → AllExecuted before
    → cmd.state ≡ cmd_new
    → current_cmd (before ++ cmd ∷ after) ≡ waiting
unfolding current_cmd
current_cmd-waiting [] cmd after done new = rw (new, current_cmd) refl
current_cmd-waiting (c ∷ before) cmd after done new =
    rw (done.0, current_cmd) (rw (current_cmd-waiting before cmd after done.1 new) refl)

pub current_cmd-running :
    (before : List Command) (cmd : Command) (after : List Command)
    → AllExecuted before
    → cmd.state ≡ cmd_executing
    → current_cmd (before ++ cmd ∷ after) ≡ running before cmd after
unfolding current_cmd
current_cmd-running [] cmd after done active = rw (active, current_cmd) refl
current_cmd-running (c ∷ before) cmd after done active =
    rw (done.0, current_cmd) (rw (current_cmd-running before cmd after done.1 active) refl)

-- The command as it is while the board works on it.
abbrev pub sent : ℕ → Command → Command
sent now cmd = executing (record cmd { epoc_timeout = cmd.timeout + now })

-- A command that goes to the board, and the text with which it does.
pub record Goes (lw : Lw) (now : ℕ) (cmd : Command) (text : Bytes) : Type 0 where
  pub to_board : cmd.def.local_state ≡ false
  pub no_reset : is_reset cmd.def.type ≡ false
  pub text_is :
      construct cmd.def.construct_cmd lw.lwan_ctx now cmd ≡ ok (started lw.lwan_ctx now cmd text)
  pub fits : FitsTx text

at_board :
    (b : Bool) (x y : Outcome Lw) {z : Outcome Lw}
    → b ≡ false
    → y ≡ z
    → elim b [ true ↦ x | false ↦ y ] ≡ z
at_board b x y e f = rw e f

is_complete_lem : (s : HttpClientState) → s ≡ http_client_request_complete → is_complete s ≡ true
is_complete_lem s e = rw e refl

enter-FitsTx : FitsTx enter
enter-FitsTx = ((refl, (refl, tt)), omega arith)

module _ (env : Env) (lw : Lw) (client : HttpClient) (clients : List HttpClient)
    (before after : List Command) (complete : client.state ≡ http_client_request_complete)
    (done : AllExecuted before) where
  start_cmd-sent :
      (cmd : Command) (buf text : Bytes) (q : List Bytes) (es : List Effect)
      → Goes lw env.now cmd text
      → start_cmd env
          (record client { cmdq = before ++ cmd ∷ after })
          clients
          before
          cmd
          after
          (during lw client clients (before ++ cmd ∷ after) buf q es)
        ≡ ok (
            during lw client clients
              (before ++ sent env.now cmd ∷ after)
              buf
              (q ++ (text ∷ enter ∷ []))
              es)
  unfolding start_cmd get_epoc_timeout
  start_cmd-sent cmd buf text q es goes =
      let lw' = during lw client clients (before ++ cmd ∷ after) buf q es in
      rw (goes.text_is, start_cmd)
        (at_board cmd.def.local_state _ _ goes.to_board (
          rw (if-false (uart_reset env lw') (ok lw') (is_reset cmd.def.type) goes.no_reset) (
            rw (uart_write-appends text lw' goes.fits) (
              rw (uart_write-appends enter (set_tx_q (q ++ text ∷ []) lw') enter-FitsTx) (
                ap
                  (λ (p : List Bytes).
                    ok (during lw client clients (before ++ sent env.now cmd ∷ after) buf p es))
                  (append_assoc q (text ∷ []) (enter ∷ [])))))))

  -- The first new command behind those that are done is started: its text and the enter key are
  -- queued for the board, and its clock runs.
  pub process_cmd-sent :
      (cmd : Command) (buf text : Bytes) (q : List Bytes) (es : List Effect)
      → cmd.state ≡ cmd_new
      → Goes lw env.now cmd text
      → process_cmd env (during lw client clients (before ++ cmd ∷ after) buf q es)
        ≡ ok (
            during lw client clients
              (before ++ sent env.now cmd ∷ after)
              buf
              (q ++ (text ∷ enter ∷ []))
              es)
  unfolding process_cmd
  process_cmd-sent cmd buf text q es new goes =
      rw (is_complete_lem client.state complete, process_cmd)
        (rw (next_cmd-start before cmd after done new, process_cmd)
          (start_cmd-sent cmd buf text q es goes))

  pub process_cmd-busy :
      (cmd : Command) (buf : Bytes) (q : List Bytes) (es : List Effect)
      → cmd.state ≡ cmd_executing
      → process_cmd env (during lw client clients (before ++ cmd ∷ after) buf q es)
        ≡ ok (during lw client clients (before ++ cmd ∷ after) buf q es)
  unfolding process_cmd
  process_cmd-busy cmd buf q es active =
      rw (is_complete_lem client.state complete, process_cmd)
        (rw (next_cmd-busy before cmd after done active, process_cmd) refl)

  -- In a round in which the board sends nothing, the first text goes out.
  pub uart_io-written :
      (cmds : List Command) (buf text : Bytes) (q : List Bytes) (es : List Effect)
      → env.uart_takes text ≡ length text
      → uart_io env [] (during lw client clients cmds buf (text ∷ q) es)
        ≡ ok (during lw client clients cmds buf q (es ++ uart_written text ∷ []))
  unfolding uart_io
  uart_io-written cmds buf text q es takes =
      ap (λ (l : Lw). ok l)
        (dev_write-first env (during lw client clients cmds buf [] es) text q takes)

next_cmd-idle : (cmds : List Command) → AllExecuted cmds → next_cmd cmds ≡ idle
unfolding next_cmd
next_cmd-idle [] done = refl
next_cmd-idle (c ∷ cmds) done = rw (done.0, next_cmd) (rw (next_cmd-idle cmds done.1) refl)

-- In a round with nothing to do the state stays.
pub process_cmd-idle :
    (env : Env) (lw : Lw) (client : HttpClient) (clients : List HttpClient) (cmds : List Command)
    (buf : Bytes) (q : List Bytes) (es : List Effect)
    → client.state ≡ http_client_request_complete
    → AllExecuted cmds
    → process_cmd env (during lw client clients cmds buf q es)
      ≡ ok (during lw client clients cmds buf q es)
unfolding process_cmd
process_cmd-idle env lw client clients cmds buf q es complete done =
    rw (is_complete_lem client.state complete, process_cmd)
      (rw (next_cmd-idle cmds done, process_cmd) refl)

pub uart_io-idle :
    (env : Env) (lw : Lw) (client : HttpClient) (clients : List HttpClient) (cmds : List Command)
    (buf : Bytes) (es : List Effect)
    → uart_io env [] (during lw client clients cmds buf [] es)
      ≡ ok (during lw client clients cmds buf [] es)
unfolding uart_io uart_dev_write
uart_io-idle env lw client clients cmds buf es = refl
