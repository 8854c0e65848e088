-- ===== src/Uart/Run.antt =====
-- `process_cmd`: the next command of the first client is started.
use lorawanatd_canarin.Base.{
  Bool, true, false, List, [], ◌∷◌, ◌++◌, codes, Outcome, ok, ◌>>=◌, if◌then◌else◌, length,
}
use lorawanatd_canarin.Command.Types.{
  Command, CmdType, CmdState, cmd_new, cmd_executing, cmd_executed, cmd_error, cmd_reset,
}
use lorawanatd_canarin.Command.Construct.{construct}
use lorawanatd_canarin.State.{Lw, Env, HttpClient, HttpClientState, http_client_request_complete}
use lorawanatd_canarin.Uart.Tx.{uart_write, uart_reset}
use lorawanatd_canarin.Uart.Rx.{uart_handle_post_read}

-- Where the walk over the commands stops: at one that is executing, at the end, or at a new one.
pub data Next : Type 0 where
  busy idle : Next
  start : (before : List Command) (cmd : Command) (after : List Command) → Next

abbrev pub behind : Command → Next → Next
behind c busy = busy
behind c idle = idle
behind c (start before cmd after) = start (c ∷ before) cmd after

abbrev pub next_at : CmdState → Command → List Command → Next → Next
next_at cmd_new c cs rest = start [] c cs
next_at cmd_executing c cs rest = busy
next_at cmd_executed c cs rest = behind c rest
next_at cmd_error c cs rest = behind c rest

unfoldable pub next_cmd : List Command → Next
next_cmd [] = idle
next_cmd (c ∷ cs) = next_at c.state c cs (next_cmd cs)

-- The first client with the command at its place in the queue.
abbrev pub with_first : HttpClient → List HttpClient → List Command → Lw → Lw
with_first client clients cmds lw = record lw { http = record client { cmdq = cmds } ∷ clients }

abbrev pub is_reset : CmdType → Bool
is_reset cmd_reset = true
is_reset _ = false

abbrev pub executing : Command → Command
executing cmd = record cmd { state = cmd_executing }

-- A local command answers at once, by bytes that are handled like those of the board. Any other
-- is queued for the board, with the enter key behind it.
unfoldable pub start_cmd :
    Env → HttpClient → List HttpClient → List Command → Command → List Command → Lw → Outcome Lw
start_cmd env client clients before cmd after lw = do
  built ← construct cmd.def.construct_cmd lw.lwan_ctx env.now cmd
  let lw' = record lw { lwan_ctx = built.lwan_ctx }
  let running = with_first client clients (before ++ executing built.cmd ∷ after)
  elim cmd.def.local_state [
    | true ↦ uart_handle_post_read env built.text (running lw')
    | false ↦ do
      lw₁ ← if is_reset cmd.def.type then uart_reset env lw' else ok lw'
      lw₂ ← uart_write built.text (length built.text) lw₁
      lw₃ ← uart_write (codes "\r\n") 2 lw₂
      ok (running lw₃)
  ]

abbrev pub is_complete : HttpClientState → Bool
is_complete http_client_request_complete = true
is_complete _ = false

unfoldable pub process_cmd : Env → Lw → Outcome Lw
unfolding start_cmd next_cmd
process_cmd env lw = elim lw.http [
  | [] ↦ ok lw
  | client ∷ clients ↦ elim (is_complete client.state) [
    | false ↦ ok lw
    | true ↦ elim (next_cmd client.cmdq) [
      | busy ↦ ok lw
      | idle ↦ ok lw
      | start before cmd after ↦ start_cmd env client clients before cmd after lw
    ]
  ]
]
