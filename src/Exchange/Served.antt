-- ===== src/Exchange/Served.antt =====
-- A client whose commands all go to the board, from its request to its reply.
use lorawanatd_canarin.Base.{List, [], ◌∷◌, ◌++◌, Bytes}
use lorawanatd_canarin.Command.Types.{Command}
use lorawanatd_canarin.State.{Lw, Env, Effect, uart_written}
use lorawanatd_canarin.Exchange.Started.{enter}
use lorawanatd_canarin.Exchange.Turns.{Turn, turn_answered, IsTurn}

abbrev pub rounds_of : List Turn → List (Env × Bytes)
rounds_of [] = []
rounds_of (t ∷ ts) = (t.e₁, []) ∷ (t.e₂, []) ∷ (t.rs ++ rounds_of ts)

abbrev pub cmds_of : List Turn → List Command
cmds_of [] = []
cmds_of (t ∷ ts) = t.cmd ∷ cmds_of ts

abbrev pub answered_of : List Turn → List Command
answered_of [] = []
answered_of (t ∷ ts) = turn_answered t ∷ answered_of ts

-- What goes to the board.
abbrev pub effects_of : List Turn → List Effect
effects_of [] = []
effects_of (t ∷ ts) = uart_written t.text ∷ uart_written enter ∷ effects_of ts

-- The buffer of the UART is cleared when a command is done.
abbrev pub AreTurns : Lw → Bytes → List Turn → Type 0
AreTurns lw buf [] = Unit
AreTurns lw buf (t ∷ ts) = IsTurn lw buf t × AreTurns lw [] ts
