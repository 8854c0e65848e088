-- ===== src/Uart/StartMoves.antt =====
-- `process_cmd` as a move of the clients: it starts the first command that is not done.
use lorawanatd_canarin.Base.{
  ◌≡◌, ◌≢◌, refl, sym, subst, ap, ◌∙◌, Bool, true, false, List, [], ◌∷◌, ◌++◌, arith, Bytes, ℕ,
  codes, ok, in_bounds, leb, Outcome, Ensures, returns, exits, Ensures->>=, Ensures-any,
  Ensures-mono, Bool-cases, inl, inr, All, length, if◌then◌else◌,
}
use lorawanatd_canarin.Command.Types.{
  Command, CmdState, cmd_new, cmd_executing, cmd_executed, cmd_error,
}
use lorawanatd_canarin.Command.Construct.{construct, Built}
use lorawanatd_canarin.State.{
  Lw, Env, HttpClient, HttpClientState, uart_tx_size, http_client_request_complete,
  http_client_active, http_client_error, http_client_disconnected,
}
use lorawanatd_canarin.Uart.Tx.{uart_write, uart_reset}
use lorawanatd_canarin.Uart.Run.{
  Next, busy, idle, start, next_cmd, next_at, behind, start_cmd, process_cmd, is_reset, executing,
  is_complete, with_first,
}
use lorawanatd_canarin.Uart.ReadMoves.{uart_handle_post_read-Makes}
use lorawanatd_canarin.Sessions
use lorawanatd_canarin.Sessions.{Move, stay, one, Moves-trans}
use lorawanatd_canarin.Sessions.Valid.{IsValid, Move-IsValid}
use lorawanatd_canarin.Sessions.View.{
  states, session, sessions, view, Makes, states-append, first-IsFine,
}

-- Where the walk finds a new command, all before it are done.
abbrev Found : List Command → Next → Type 0
Found cs busy = Unit
Found cs idle = Unit
Found cs (start before cmd after) =
    (states cs ≡ states before ++ cmd_new ∷ states after)
    × All (λ s. s ≡ cmd_executed) (states before)

Found-behind :
    (c : Command) (cs : List Command) (n : Next)
    → c.state ≡ cmd_executed
    → Found cs n
    → Found (c ∷ cs) (behind c n)
Found-behind c cs busy done h = tt
Found-behind c cs idle done h = tt
Found-behind c cs (start before cmd after) done h = (ap (◌∷◌ c.state) h.0, (done, h.1))

Found-next_at :
    (s : CmdState) (c : Command) (cs : List Command)
    → c.state ≡ s
    → c.state ≢ cmd_error
    → Found cs (next_cmd cs)
    → Found (c ∷ cs) (next_at s c cs (next_cmd cs))
Found-next_at cmd_new c cs e good h = (ap (λ s. s ∷ states cs) e, tt)
Found-next_at cmd_executing c cs e good h = tt
Found-next_at cmd_executed c cs e good h = Found-behind c cs (next_cmd cs) e h
Found-next_at cmd_error c cs e good h = absurd (good e)

Found-next_cmd : (cs : List Command) → All (λ s. s ≢ cmd_error) (states cs) → Found cs (next_cmd cs)
unfolding next_cmd
Found-next_cmd [] h = tt
Found-next_cmd (c ∷ cs) h = Found-next_at c.state c cs refl h.0 (Found-next_cmd cs h.1)

-- Writing to the board, and opening the UART again, do not touch the next address.
abbrev KeepsNext : ℕ → Outcome Lw → Type 0
KeepsNext n = Ensures (λ (lw : Lw). lw.next_id ≡ n)

uart_write-next : (text : Bytes) (len : ℕ) (lw : Lw) → KeepsNext lw.next_id (uart_write text len lw)
unfolding uart_write
uart_write-next text len lw =
    Ensures->>= (Ensures-any (in_bounds (leb len uart_tx_size))) λ _ _. returns _ refl

uart_reset-next : (env : Env) (lw : Lw) → KeepsNext lw.next_id (uart_reset env lw)
unfolding uart_reset
uart_reset-next env lw = elim (Bool-cases env.uart_opens) [
  | inl opens ↦ rw opens (returns _ refl)
  | inr shut ↦ rw shut exits
]

reset_if-next :
    (b : Bool) (env : Env) (lw : Lw) → KeepsNext lw.next_id (if b then uart_reset env lw else ok lw)
reset_if-next true env lw = uart_reset-next env lw
reset_if-next false env lw = returns lw refl

start_cmd-Makes :
    (env : Env) (client : HttpClient) (clients : List HttpClient) (before : List Command)
    (cmd : Command) (after : List Command) (lw : Lw)
    → Found client.cmdq (start before cmd after)
    → client.state ≡ http_client_request_complete
    → lw.http ≡ client ∷ clients
    → IsValid (view lw)
    → Makes lw (start_cmd env client clients before cmd after lw)
unfolding start_cmd
start_cmd-Makes env client clients before cmd after lw found complete e v =
    Ensures->>= (Ensures-any (construct cmd.def.construct_cmd lw.lwan_ctx env.now cmd)) λ built _.
      elim (Bool-cases cmd.def.local_state) [
        | inl here ↦ rw here (
            Ensures-mono
              (λ lw'' ms.
                Moves-trans (one (started built (record lw { lwan_ctx = built.lwan_ctx }) refl)) ms)
              (uart_handle_post_read-Makes env built.text _
                (Move-IsValid (started built (record lw { lwan_ctx = built.lwan_ctx }) refl) v)))
        | inr board ↦ rw board (
            Ensures->>=
              (reset_if-next (is_reset cmd.def.type) env (record lw { lwan_ctx = built.lwan_ctx }))
              λ lw₁ e₁. Ensures->>= (uart_write-next built.text (length built.text) lw₁) λ lw₂ e₂.
                Ensures->>= (uart_write-next (codes "\r\n") 2 lw₂)
                  λ lw₃ e₃. returns _ (one (started built lw₃ (e₃ ∙ (e₂ ∙ e₁)))))
      ]
  where
    started :
        (built : Built) (lw' : Lw)
        → lw'.next_id ≡ lw.next_id
        → Move
            (view lw)
            (view (with_first client clients (before ++ executing built.cmd ∷ after) lw'))
    started built lw' same =
        Sessions.start (session client) (sessions clients) (states before) (states after) complete
          found.1 found.0 (rw e refl) (rw (states-append before (executing built.cmd ∷ after)) refl)
          same

abbrev by_next : Env → HttpClient → List HttpClient → Lw → Next → Outcome Lw
by_next env client clients lw busy = ok lw
by_next env client clients lw idle = ok lw
by_next env client clients lw (start before cmd after) =
    start_cmd env client clients before cmd after lw

process_cmd-by_next :
    (env : Env) (client : HttpClient) (clients : List HttpClient) (lw : Lw)
    → lw.http ≡ client ∷ clients
    → is_complete client.state ≡ true
    → process_cmd env lw ≡ by_next env client clients lw (next_cmd client.cmdq)
unfolding process_cmd
process_cmd-by_next env client clients lw e complete =
    rw (e, process_cmd) (rw complete (ground arith))

by_next-Makes :
    (env : Env) (client : HttpClient) (clients : List HttpClient) (lw : Lw) (n : Next)
    → Found client.cmdq n
    → client.state ≡ http_client_request_complete
    → lw.http ≡ client ∷ clients
    → IsValid (view lw)
    → Makes lw (by_next env client clients lw n)
by_next-Makes env client clients lw busy found complete e v = returns lw stay
by_next-Makes env client clients lw idle found complete e v = returns lw stay
by_next-Makes env client clients lw (start before cmd after) found complete e v =
    start_cmd-Makes env client clients before cmd after lw found complete e v

process_cmd-none : (env : Env) (lw : Lw) → lw.http ≡ [] → process_cmd env lw ≡ ok lw
unfolding process_cmd
process_cmd-none env lw e = ground arith

process_cmd-other :
    (env : Env) (client : HttpClient) (clients : List HttpClient) (lw : Lw)
    → lw.http ≡ client ∷ clients
    → is_complete client.state ≡ false
    → process_cmd env lw ≡ ok lw
unfolding process_cmd
process_cmd-other env client clients lw e other = ground arith

complete_state : (s : HttpClientState) → is_complete s ≡ true → s ≡ http_client_request_complete
complete_state http_client_request_complete h = refl
complete_state http_client_active h = absurd (cc)
complete_state http_client_error h = absurd (cc)
complete_state http_client_disconnected h = absurd (cc)

by_first-Makes :
    (env : Env) (lw : Lw) (cs : List HttpClient)
    → lw.http ≡ cs
    → IsValid (view lw)
    → Makes lw (process_cmd env lw)
by_first-Makes env lw [] e v = subst (Makes lw) (sym (process_cmd-none env lw e)) (returns lw stay)
by_first-Makes env lw (client ∷ clients) e v = elim (Bool-cases (is_complete client.state)) [
  | inr other ↦
      subst (Makes lw) (sym (process_cmd-other env client clients lw e other)) (returns lw stay)
  | inl complete ↦ subst (Makes lw) (sym (process_cmd-by_next env client clients lw e complete)) (
      by_next-Makes env client clients lw (next_cmd client.cmdq)
        (Found-next_cmd client.cmdq (first-IsFine lw client clients e v).1)
        (complete_state client.state complete) e v)
]

-- A round of `process_cmd` is a move: the first client's next command is started, or nothing is.
pub process_cmd-Makes : (env : Env) (lw : Lw) → IsValid (view lw) → Makes lw (process_cmd env lw)
process_cmd-Makes env lw v = by_first-Makes env lw lw.http refl v
