-- ===== src/Command/Queue.antt =====
-- The queue of a client's commands: `set_active_cmd_uart_buf` of src/command.c.
use lorawanatd_canarin.Base.{
  ◌+◌, Bool, true, false, List, [], ◌∷◌, ◌++◌, Bytes, Outcome, ok, in_bounds, ◌>>=◌, ◌>>◌, leb,
  length,
}
use lorawanatd_canarin.Command.Types.{Command, CmdState, cmd_executing, cmd_new, cmd_buf_size}

abbrev pub is_executing : CmdState → Bool
is_executing cmd_executing = true
is_executing _ = false

abbrev pub is_new : CmdState → Bool
is_new cmd_new = true
is_new _ = false

-- The `memcpy` behind the bytes that the command has received so far.
unfoldable pub append_response : Command → Bytes → Outcome Command
append_response cmd buf = do
  in_bounds (leb (length cmd.buf + length buf) cmd_buf_size)
  ok (record cmd { buf = cmd.buf ++ buf })

-- The first command that is executing takes the bytes; with none of them the bytes are dropped.
unfoldable pub set_active_cmd_uart_buf : List Command → Bytes → Outcome (List Command)
unfolding append_response
set_active_cmd_uart_buf [] buf = ok []
set_active_cmd_uart_buf (cmd ∷ cmds) buf = elim (is_executing cmd.state) [
  | true ↦ do cmd' ← append_response cmd buf; ok (cmd' ∷ cmds)
  | false ↦ do cmds' ← set_active_cmd_uart_buf cmds buf; ok (cmd ∷ cmds')
]
