-- ===== src/Context/Params.antt =====
-- `update_cntr` and `set_mac_params`.
use lorawanatd_canarin.Base.{
  ℕ, suc, Bool, true, false, List, [], ◌∷◌, ◌++◌, Option, none, some, Bytes, codes, print_u,
  Outcome, ok, deref, ◌>>=◌, leb, if◌then◌else◌, length, get_or,
}
use lorawanatd_canarin.LwanContext
use lorawanatd_canarin.LwanContext.{LwanContext, MacParams, test_bit, clear_bit}
use lorawanatd_canarin.Command.Types.{Command, CommandDef, set, cmd_set}
use lorawanatd_canarin.Command.Make.{make_cmd}
use lorawanatd_canarin.State.{Lw, HttpClient, ContextManager, http_client_request_complete}
use lorawanatd_canarin.Clients.{create_http_client, free_http_client, allocated}

abbrev pub ctx_acquire_count : ℕ
ctx_acquire_count = 10

-- Counts a send or a receive, and says whether this was the tenth.
unfoldable pub update_cntr : ContextManager → ContextManager × Bool
update_cntr m =
    if leb ctx_acquire_count (suc m.send_recv_cntr)
    then (record m { send_recv_cntr = 0 }, true)
    else (record m { send_recv_cntr = suc m.send_recv_cntr }, false)

abbrev pub remember : Option ℕ → Lw → Lw
remember client lw = record lw { ctx_mngr = record m { client = client } }
  where
    m : ContextManager
    m = lw.ctx_mngr

-- The tokens of the parameters, in the order of `enum mac_pram_type_e`.
abbrev pub mac_tokens : List (ℕ × Bytes)
mac_tokens =
    (LwanContext.mac_param_adr, codes "adaptive_data_rate")
    ∷ (LwanContext.mac_param_data_rate, codes "data_rate")
    ∷ (LwanContext.mac_param_transmit_power, codes "transmit_power")
    ∷ (LwanContext.mac_param_rx1_delay, codes "rx1_delay")
    ∷ (LwanContext.mac_param_rx2_delay, codes "rx2_delay")
    ∷ (LwanContext.mac_param_rx2_data_rate, codes "rx2_data_rate")
    ∷ []

-- The definition is copied into the command, so only this command stops being local.
abbrev pub to_hardware : Command → Command
to_hardware cmd = record cmd { def = record d { local_state = false } }
  where
    d : CommandDef
    d = cmd.def

-- `sprintf(params_str[i], "%u", params[i])`. (The text is what the shared `params_str` holds when
-- the command is made.)
abbrev param_text : ℕ → Bytes
param_text n = print_u n

abbrev mac_cmd : Bytes → Bytes → Option Command
mac_cmd token text = make_cmd token (length token) (some (set text (length text))) 0 cmd_set

-- The loop over the parameters: a command for each that is dirty, and its bit is cleared.
unfoldable pub collect_dirty : List (ℕ × Bytes) → MacParams → Outcome (List Command × MacParams)
unfolding make_cmd print_u
collect_dirty [] mac = ok ([], mac)
collect_dirty ((i, token) ∷ params) mac = elim (test_bit mac.dirty i) [
  | true ↦ do
    cmd ← deref (mac_cmd token (param_text (get_or mac.params i 0)))
    (cmds, mac') ← collect_dirty params (record mac { dirty = clear_bit mac.dirty i })
    ok (to_hardware cmd ∷ cmds, mac')
  | false ↦ collect_dirty params mac
]

abbrev pub assign_mac_params : MacParams → Lw → Lw
assign_mac_params mac lw = record lw { lwan_ctx = record ctx { mac_params = mac } }
  where
    ctx : LwanContext
    ctx = lw.lwan_ctx

-- The client joins the end of the queue only if it has a command; else it is freed although no
-- queue holds it.
unfoldable pub queue_or_free : HttpClient → Lw → Outcome Lw
unfolding free_http_client
queue_or_free client lw = elim client.cmdq [
  | [] ↦ do lw' ← free_http_client client lw; ok (remember none lw')
  | cmd ∷ cmds ↦
      ok (record lw {
        http = lw.http ++ record client { state = http_client_request_complete } ∷ [];
      })
]

unfoldable pub set_mac_params : Lw → Outcome Lw
unfolding collect_dirty queue_or_free create_http_client
set_mac_params lw = do
  let client = create_http_client lw 0
  (cmds, mac) ← collect_dirty mac_tokens lw.lwan_ctx.mac_params
  queue_or_free (record client { local = true; cmdq = cmds })
      (assign_mac_params mac (remember (some client.id) (allocated lw)))
