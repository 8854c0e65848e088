-- ===== src/Exchange.antt =====
-- A command's exchange with the board, over the functions that one round of the timer calls
-- (`cb_timer` of src/uart.c, `process_http_clients` of src/http.c).
pub mod Received
pub mod Started
pub mod Settled
pub mod Rounds
pub mod Done
pub mod Turns
pub mod Answered
pub mod Served
use lorawanatd_canarin.Base.{◌≡◌, Bool, true, false, List, ◌∷◌, ◌++◌, Bytes, All}
use lorawanatd_canarin.Command.Types.{Command, cmd_executed}
use lorawanatd_canarin.State.{Lw, HttpClient, Effect}

-- The daemon with this first client, its commands, the buffer of the UART, the texts that wait for
-- the board, and what has been done to the world.
abbrev pub during :
    Lw → HttpClient → List HttpClient → List Command → Bytes → List Bytes → List Effect → Lw
during lw client clients cmds buf q effects = record lw {
  http = record client { cmdq = cmds } ∷ clients;
  uart = record { buf = buf; tx_q = q };
  effects = effects;
}

abbrev pub AllExecuted : List Command → Type 0
AllExecuted cmds = All (λ (c : Command). c.state ≡ cmd_executed) cmds
