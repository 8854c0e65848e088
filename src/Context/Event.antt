-- ===== src/Context/Event.antt =====
-- `check_if_client_error`, `context_manager_event` and `context_manager_init`.
use lorawanatd_canarin.Base.{
  ℕ, Bool, true, false, ◌||◌, ◌&&◌, not, List, [], ◌∷◌, Option, none, some, codes, Outcome, ok,
  deref, ◌>>=◌, ◌==◌, length,
}
use lorawanatd_canarin.Util.Contains.{is_buffer_contains}
use lorawanatd_canarin.Command.Types.{
  Command, CmdType, cmd_delay, cmd_async_recv, cmd_send_binary, cmd_send_text, cmd_join,
  cmd_acquire_context, cmd_restore_context, cmd_reset, cmd_hard_reset, cmd_force_update,
}
use lorawanatd_canarin.Command.Queue.{is_new}
use lorawanatd_canarin.State.{Lw, Env, HttpClient}
use lorawanatd_canarin.Context.File.{reset_lwan_ctx, read_context}
use lorawanatd_canarin.Context.Acquire.{context_acquired}
use lorawanatd_canarin.Context.Params.{update_cntr, set_mac_params}
use lorawanatd_canarin.Context.Firmware.{generate_ctx, restore_firmware_context}

-- The client at an address, if it has not been freed.
unfoldable pub find_client : ℕ → List HttpClient → Option HttpClient
find_client id [] = none
find_client id (c ∷ cs) = elim (c.id == id) [ true ↦ some c | false ↦ find_client id cs ]

abbrev is_delay : CmdType → Bool
is_delay cmd_delay = true
is_delay _ = false

-- A command that has been started, is no delay, and has not been answered with "OK".
unfoldable pub lacks_ok : Command → Bool
lacks_ok cmd =
    not (is_new cmd.state || is_delay cmd.def.type)
    && not (is_buffer_contains cmd.buf (length cmd.buf) (codes "OK"))

unfoldable pub any_lacks_ok : List Command → Bool
unfolding lacks_ok
any_lacks_ok [] = false
any_lacks_ok (cmd ∷ cmds) = lacks_ok cmd || any_lacks_ok cmds

-- `this->client` is read without a check that it is still allocated.
unfoldable pub check_if_client_error : Lw → Outcome Bool
unfolding find_client any_lacks_ok
check_if_client_error lw = elim lw.ctx_mngr.client [
  | none ↦ ok false
  | some id ↦ do client ← deref (find_client id lw.http); ok (any_lacks_ok client.cmdq)
]

-- A send or a receive.
unfoldable pub count_event : Lw → Outcome Lw
unfolding update_cntr
count_event lw =
    let (m, tenth) = update_cntr lw.ctx_mngr in
    elim tenth [
      | true ↦ generate_ctx (record lw { ctx_mngr = m })
      | false ↦ ok (record lw { ctx_mngr = m })
    ]

unfoldable pub restore_event : Lw → Outcome Lw
unfolding check_if_client_error
restore_event lw = do
  failed ← check_if_client_error lw
  elim failed [ true ↦ restore_firmware_context lw | false ↦ ok lw ]

-- `cmd` is NULL for `none`.
unfoldable pub context_manager_event : Env → CmdType → Option Command → Lw → Outcome Lw
unfolding count_event restore_event
context_manager_event env cmd_async_recv cmd lw = count_event lw
context_manager_event env cmd_send_binary cmd lw = count_event lw
context_manager_event env cmd_send_text cmd lw = count_event lw
context_manager_event env cmd_join cmd lw = do lw' ← set_mac_params lw; generate_ctx lw'
context_manager_event env cmd_acquire_context cmd lw = do
  acquire ← deref cmd
  context_acquired env acquire lw
context_manager_event env cmd_restore_context cmd lw = restore_event lw
context_manager_event env cmd_reset cmd lw = restore_firmware_context lw
context_manager_event env cmd_hard_reset cmd lw = ok (reset_lwan_ctx true lw)
context_manager_event env cmd_force_update cmd lw = set_mac_params lw
context_manager_event env _ cmd lw = ok lw

unfoldable pub context_manager_init : Lw → Outcome Lw
context_manager_init lw = restore_firmware_context (read_context (reset_lwan_ctx false lw))
