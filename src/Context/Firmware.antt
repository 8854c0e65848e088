-- ===== src/Context/Firmware.antt =====
-- `generate_ctx` and `restore_firmware_context`.
use lorawanatd_canarin.Base.{
  ℕ, zero, suc, ◌+◌, true, false, List, [], ◌∷◌, ◌++◌, Option, none, some, Bytes, codes, Outcome,
  ok, deref, ◌>>=◌, ◌==◌, length, get_or,
}
use lorawanatd_canarin.LwanContext.{LwanContext}
use lorawanatd_canarin.Command.Types.{Command, internal, cmd_internal}
use lorawanatd_canarin.Command.Make.{make_cmd}
use lorawanatd_canarin.State.{Lw, HttpClient, http_client_request_complete}
use lorawanatd_canarin.Clients.{create_http_client, free_http_client, allocated}
use lorawanatd_canarin.Context.Acquire.{confirm_queue}
use lorawanatd_canarin.Context.Params.{remember}

abbrev pub delay_token : Bytes
delay_token = codes "delay"

abbrev pub ctx_acq_token : Bytes
ctx_acq_token = codes "context_acquire"

abbrev pub ctx_res_token : Bytes
ctx_res_token = codes "context_restore"

-- `make_cmd(TOKEN_AT_DELAY, …, NULL, seconds, CMD_INTERNAL)`, inserted without a check.
abbrev delay_cmd : ℕ → Outcome Command
delay_cmd seconds = deref (make_cmd delay_token (length delay_token) none seconds cmd_internal)

abbrev acquire_cmd : Option Command
acquire_cmd = make_cmd ctx_acq_token (length ctx_acq_token) none 0 cmd_internal

-- Where the second command cannot be made the client is freed, which no queue holds.
unfoldable pub generate_ctx : Lw → Outcome Lw
unfolding create_http_client make_cmd
generate_ctx lw = do
  let client = create_http_client lw 0
  delay ← delay_cmd 5
  acquire ← deref acquire_cmd
  let ready = record client {
    local = true;
    cmdq = delay ∷ acquire ∷ [];
    state = http_client_request_complete;
  }
  let lw' = remember (some client.id) (allocated lw)
  ok (record lw' { http = lw.http ++ ready ∷ [] })

abbrev restore_cmd : ℕ → Option Command
restore_cmd type =
    make_cmd ctx_res_token (length ctx_res_token) (some (internal type)) 0 cmd_internal

abbrev pub option_list : Option Command → List Command
option_list none = []
option_list (some cmd) = cmd ∷ []

-- The loop from `type` over as many types as are left: a restore command and a delay for each
-- context that was saved.
unfoldable pub restore_cmds : ℕ → ℕ → LwanContext → Outcome (List Command)
unfolding make_cmd
restore_cmds zero type ctx = ok []
restore_cmds (suc left) type ctx = do
  rest ← restore_cmds left (type + 1) ctx
  elim (get_or ctx.ctx_len type 0 == 0) [
    | true ↦ ok rest
    | false ↦ do delay ← delay_cmd 2; ok (option_list (restore_cmd type) ++ delay ∷ rest)
  ]

-- The client goes to the head of the queue. With no command it is freed again.
unfoldable pub start_or_free : HttpClient → Lw → Outcome Lw
unfolding free_http_client
start_or_free client lw = elim client.cmdq [
  | [] ↦ do
    lw' ← free_http_client client (record lw { http = client ∷ lw.http })
    ok (remember none lw')
  | cmd ∷ cmds ↦
      ok (record lw { http = record client { state = http_client_request_complete } ∷ lw.http })
]

unfoldable pub restore_firmware_context : Lw → Outcome Lw
unfolding create_http_client restore_cmds start_or_free
restore_firmware_context lw = do
  let client = create_http_client lw 0
  cmds ← restore_cmds (suc confirm_queue) 0 lw.lwan_ctx
  start_or_free (record client { local = true; restore_context = true; cmdq = cmds })
      (remember (some client.id) (allocated lw))
