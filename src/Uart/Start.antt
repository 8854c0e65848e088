-- ===== src/Uart/Start.antt =====
-- Starting a command keeps the queue of clients in order.
use lorawanatd_canarin.Base.{
  ◌≡◌, refl, subst, sym, true, List, [], ◌∷◌, ◌++◌, arith, codes, ok, returns, Ensures->>=,
  Ensures-any, Bool-cases, inl, inr, length, if◌then◌else◌,
}
use lorawanatd_canarin.Command.Types.{
  Command, CmdState, cmd_new, cmd_executing, cmd_executed, cmd_error,
}
use lorawanatd_canarin.Command.Construct.{construct}
use lorawanatd_canarin.Command.Order.{in_order}
use lorawanatd_canarin.State.{Lw, Env, HttpClient}
use lorawanatd_canarin.Context.Order.{AllResting}
use lorawanatd_canarin.Uart.Tx.{uart_write, uart_reset}
use lorawanatd_canarin.Uart.Order.{IsSerial, KeepsSerial, uart_handle_post_read-serial}
use lorawanatd_canarin.Uart.Run.{
  Next, busy, idle, start, next_cmd, next_at, behind, start_cmd, process_cmd, is_reset, executing,
  is_complete,
}

-- Where a new command is found, it may be made to execute.
abbrev CanStart : Next → Type 0
CanStart busy = Unit
CanStart idle = Unit
CanStart (start before cmd after) =
    (c : Command) → c.state ≡ cmd_executing → in_order (before ++ c ∷ after) ≡ true

CanStart-behind :
    (c : Command) (n : Next) → c.state ≡ cmd_executed → CanStart n → CanStart (behind c n)
unfolding in_order
CanStart-behind c busy done h = tt
CanStart-behind c idle done h = tt
CanStart-behind c (start before cmd after) done h = λ d run. ground (arith, h d run)

CanStart-next_at :
    (s : CmdState) (c : Command) (cs : List Command)
    → c.state ≡ s
    → in_order (c ∷ cs) ≡ true
    → (in_order cs ≡ true → CanStart (next_cmd cs))
    → CanStart (next_at s c cs (next_cmd cs))
unfolding in_order
CanStart-next_at cmd_new c cs e h rest = λ d run. ground arith
CanStart-next_at cmd_executing c cs e h rest = tt
CanStart-next_at cmd_executed c cs e h rest =
    CanStart-behind c (next_cmd cs) e (rest (ground arith))
CanStart-next_at cmd_error c cs e h rest = absurd (ground arith)

CanStart-next_cmd : (cs : List Command) → in_order cs ≡ true → CanStart (next_cmd cs)
unfolding next_cmd
CanStart-next_cmd [] h = tt
CanStart-next_cmd (c ∷ cs) h = CanStart-next_at c.state c cs refl h (CanStart-next_cmd cs)

start_cmd-serial :
    (env : Env) (client : HttpClient) (clients : List HttpClient) (before : List Command)
    (cmd : Command) (after : List Command) (lw : Lw)
    → CanStart (start before cmd after)
    → AllResting clients
    → KeepsSerial (start_cmd env client clients before cmd after lw)
unfolding start_cmd
start_cmd-serial env client clients before cmd after lw can rests =
    Ensures->>= (Ensures-any (construct cmd.def.construct_cmd lw.lwan_ctx env.now cmd)) λ built _.
      elim (Bool-cases cmd.def.local_state) [
        | inl here ↦
            rw here (
              uart_handle_post_read-serial env built.text _ (can (executing built.cmd) refl, rests))
        | inr board ↦ rw board (
            Ensures->>=
              (Ensures-any (
                if is_reset cmd.def.type
                then uart_reset env (record lw { lwan_ctx = built.lwan_ctx })
                else ok (record lw { lwan_ctx = built.lwan_ctx })))
              λ lw₁ _.
                Ensures->>= (Ensures-any (uart_write built.text (length built.text) lw₁)) λ lw₂ _.
                  Ensures->>= (Ensures-any (uart_write (codes "\r\n") 2 lw₂))
                    λ lw₃ _. returns _ (can (executing built.cmd) refl, rests))
      ]

by_next-serial :
    (env : Env) (client : HttpClient) (clients : List HttpClient) (lw : Lw) (n : Next)
    → CanStart n
    → AllResting clients
    → IsSerial lw.http
    → KeepsSerial (elim n [
      | busy ↦ ok lw
      | idle ↦ ok lw
      | start before cmd after ↦ start_cmd env client clients before cmd after lw
    ])
by_next-serial env client clients lw busy can rests h = returns lw h
by_next-serial env client clients lw idle can rests h = returns lw h
by_next-serial env client clients lw (start before cmd after) can rests h =
    start_cmd-serial env client clients before cmd after lw can rests

by_first-serial :
    (env : Env) (lw : Lw) (cs : List HttpClient)
    → lw.http ≡ cs
    → IsSerial cs
    → KeepsSerial (process_cmd env lw)
unfolding process_cmd
by_first-serial env lw [] e h = rw (e, process_cmd) (returns lw (rw e tt))
by_first-serial env lw (client ∷ clients) e h = elim (Bool-cases (is_complete client.state)) [
  | inr other ↦ rw (e, process_cmd) (rw other (returns lw (subst IsSerial (sym e) h)))
  | inl complete ↦
      rw (e, process_cmd)
        (rw complete (
          by_next-serial env client clients lw (next_cmd client.cmdq)
            (CanStart-next_cmd client.cmdq h.0) h.1 (subst IsSerial (sym e) h)))
]

-- `process_cmd` starts a command only where none is executing.
pub process_cmd-serial : (env : Env) (lw : Lw) → IsSerial lw.http → KeepsSerial (process_cmd env lw)
process_cmd-serial env lw h = by_first-serial env lw lw.http refl h
