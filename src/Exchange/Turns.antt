-- ===== src/Exchange/Turns.antt =====
-- The rounds in which one command goes to the board and is answered.
use lorawanatd_canarin.Base.{
  ◌+◌, ◌≡◌, ◌≤◌, ◌<◌, refl, ap, ◌∙◌, List, [], ◌∷◌, ◌++◌, Bytes, ok, Outcome, ◌>>=◌, length,
}
use lorawanatd_canarin.Command.Types.{Command, cmd_buf_size}
use lorawanatd_canarin.Command.Wait.{response}
use lorawanatd_canarin.Command.Responses.{OneOccurs}
use lorawanatd_canarin.State.{
  Lw, Env, HttpClient, Effect, http_client_request_complete, uart_buf_size, uart_written,
}
use lorawanatd_canarin.Daemon.Steps.{cb_timer}
use lorawanatd_canarin.Exchange.{during, AllExecuted}
use lorawanatd_canarin.Exchange.Received.{with_bytes}
use lorawanatd_canarin.Exchange.Started.{
  enter, sent, process_cmd-sent, process_cmd-busy, uart_io-written,
}
use lorawanatd_canarin.Exchange.Settled.{IsSettled, cb_timer-settled, complete-connected}
use lorawanatd_canarin.Exchange.Rounds.{
  rounds, rounds-append, heard, Hears, rounds-heard, process_http_clients-new,
  process_http_clients-still,
}
use lorawanatd_canarin.Exchange.Done.{Asks, answered, unheard-unanswered}

-- A state whose first client and whose queue for the board are known.
pub during-at :
    (lw : Lw) (client : HttpClient) (clients : List HttpClient) (cmds : List Command)
    → lw.http ≡ client ∷ clients
    → client.cmdq ≡ cmds
    → lw.uart.tx_q ≡ []
    → lw ≡ during lw client clients cmds lw.uart.buf [] lw.effects
during-at lw client clients cmds first queue empty =
    ap (λ (h : List HttpClient). record lw { http = h }) first
    ∙ ap (λ (c : List Command). during lw client clients c lw.uart.buf lw.uart.tx_q lw.effects)
        queue
    ∙ ap (λ (q : List Bytes). during lw client clients cmds lw.uart.buf q lw.effects) empty

-- A command, the text that it sends, and the rounds that it takes: `e₁`, in which the command
-- before it is found to be answered, its text is queued and goes out; `e₂`, in which the enter key
-- does; and `rs`, in which the board answers.
pub record Turn : Type 0 where
  pub cmd : Command
  pub text : Bytes
  pub e₁ : Env
  pub e₂ : Env
  pub rs : List (Env × Bytes)

abbrev pub turn_answered : Turn → Command
turn_answered t = answered t.e₁.now t.cmd (heard t.rs)

-- The command goes to the board whole, and one of the five responses comes back in time.
pub record IsTurn (lw : Lw) (buf : Bytes) (t : Turn) : Type 0 where
  pub asks : Asks lw t.e₁.now t.cmd t.text
  pub takes_text : t.e₁.uart_takes t.text ≡ length t.text
  pub takes_enter : t.e₂.uart_takes enter ≡ length enter
  pub in_time : t.e₂.now < t.cmd.timeout + t.e₁.now
  pub hears : Hears buf (sent t.e₁.now t.cmd) t.rs
  pub room : length t.cmd.buf + length (heard t.rs) ≤ cmd_buf_size
  pub space : length buf + length (heard t.rs) < uart_buf_size
  pub answers : OneOccurs response (with_bytes (sent t.e₁.now t.cmd) (heard t.rs))

module _ (lw : Lw) (client : HttpClient) (clients : List HttpClient)
    (complete : client.state ≡ http_client_request_complete)
    (settled : IsSettled lw.push clients) where
  pub connected : IsSettled lw.push (client ∷ clients)
  connected = (settled.0, (complete-connected client.state complete, settled.1))

  -- From the round after the text has gone out to the one in which the answer is there.
  pub turn-arrived :
      (t : Turn) (before after : List Command) (buf : Bytes) (es : List Effect)
      → AllExecuted before
      → IsTurn lw buf t
      → rounds
          ((t.e₂, []) ∷ t.rs)
          (during lw client clients (before ++ sent t.e₁.now t.cmd ∷ after) buf (enter ∷ []) es)
        ≡ ok (
            during lw client clients
              (before ++ with_bytes (sent t.e₁.now t.cmd) (heard t.rs) ∷ after)
              (buf ++ heard t.rs)
              []
              (es ++ uart_written enter ∷ []))
  unfolding rounds
  turn-arrived t before after buf es done turn =
      let cmd = sent t.e₁.now t.cmd in
      rw
        (
          cb_timer-settled t.e₂ []
              (during lw client clients (before ++ cmd ∷ after) buf (enter ∷ []) es) connected
              (process_http_clients-still lw client clients before after complete done t.e₂ cmd buf
                (enter ∷ []) es refl turn.asks.waits
                (turn.in_time, unheard-unanswered cmd turn.asks.unheard))
              (process_cmd-busy t.e₂ lw client clients before after complete done cmd buf
                (enter ∷ []) es refl)
              (uart_io-written t.e₂ lw client clients before after complete done
                (before ++ cmd ∷ after) buf enter [] es turn.takes_enter),
          rounds,
        )
        (rounds-heard lw client clients before after complete done cmd buf
          (es ++ uart_written enter ∷ []) t.rs settled refl turn.asks.waits turn.room turn.space
          turn.hears)

  -- The first round: the first command that is not done is started, and its text goes out.
  pub turn-first :
      (t : Turn) (before after : List Command) (buf : Bytes) (es : List Effect)
      → AllExecuted before
      → IsTurn lw buf t
      → cb_timer t.e₁ [] (during lw client clients (before ++ t.cmd ∷ after) buf [] es)
        ≡ ok (
            during lw client clients
              (before ++ sent t.e₁.now t.cmd ∷ after)
              buf
              (enter ∷ [])
              (es ++ uart_written t.text ∷ []))
  turn-first t before after buf es done turn =
      cb_timer-settled t.e₁ [] (during lw client clients (before ++ t.cmd ∷ after) buf [] es)
        connected
        (process_http_clients-new lw client clients before after complete done t.e₁ t.cmd buf [] es
          turn.asks.new)
        (process_cmd-sent t.e₁ lw client clients before after complete done t.cmd buf t.text [] es
          turn.asks.new turn.asks.goes)
        (uart_io-written t.e₁ lw client clients before after complete done
          (before ++ sent t.e₁.now t.cmd ∷ after) buf t.text (enter ∷ []) es turn.takes_text)

  -- From a text that has gone out to the end of that turn, and on from there.
  pub turn-then :
      (t : Turn) (rest : List (Env × Bytes)) (before after : List Command) (buf : Bytes)
      (es : List Effect) {m : Outcome Lw}
      → AllExecuted before
      → IsTurn lw buf t
      → rounds rest (
          during lw client clients
            (before ++ with_bytes (sent t.e₁.now t.cmd) (heard t.rs) ∷ after)
            (buf ++ heard t.rs)
            []
            (es ++ uart_written enter ∷ []))
        ≡ m
      → rounds
          ((t.e₂, []) ∷ (t.rs ++ rest))
          (during lw client clients (before ++ sent t.e₁.now t.cmd ∷ after) buf (enter ∷ []) es)
        ≡ m
  turn-then t rest before after buf es done turn e =
      rounds-append ((t.e₂, []) ∷ t.rs) rest
        (during lw client clients (before ++ sent t.e₁.now t.cmd ∷ after) buf (enter ∷ []) es)
      ∙ ap (λ m. m >>= rounds rest) (turn-arrived t before after buf es done turn)
      ∙ e
