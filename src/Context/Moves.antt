-- ===== src/Context/Moves.antt =====
-- The events of the context manager as moves of the clients: those that it queues hold new
-- commands, and nothing else changes.
use lorawanatd_canarin.Base.{
  suc, ◌≡◌, refl, Bool, true, false, List, [], ◌∷◌, Option, none, some, arith, ok, returns, faults,
  Ensures->>=, Ensures-any, Bool-cases, inl, inr, ==_refl, c_string, length,
}
use lorawanatd_canarin.Command.Types.{
  Command, CmdType, cmd_internal, cmd_async_recv, cmd_send_binary, cmd_send_text, cmd_join,
  cmd_acquire_context, cmd_restore_context, cmd_reset, cmd_hard_reset, cmd_force_update,
}
use lorawanatd_canarin.Command.Order.{all_new, deref-make_cmd}
use lorawanatd_canarin.State.{Lw, Env, HttpClient, http_client_request_complete}
use lorawanatd_canarin.Clients.{stailq_remove, free_http_client, create_http_client}
use lorawanatd_canarin.Context.Params.{queue_or_free, set_mac_params, mac_tokens, update_cntr}
use lorawanatd_canarin.Context.Firmware.{generate_ctx, start_or_free, restore_firmware_context}
use lorawanatd_canarin.Context.File.{reset_lwan_ctx, write_context}
use lorawanatd_canarin.Context.Acquire.{acquire_loop, context_acquired}
use lorawanatd_canarin.Context.Event.{
  check_if_client_error, count_event, restore_event, context_manager_event,
}
use lorawanatd_canarin.Context.Order.{collect_dirty-all_new, restore_cmds-all_new}
use lorawanatd_canarin.Context.Unqueued.{stailq_remove-missing}
use lorawanatd_canarin.Sessions.{spawn, restore, skip, stay, one}
use lorawanatd_canarin.Sessions.Valid.{IsValid}
use lorawanatd_canarin.Sessions.View.{
  session, view, Makes, Makes->>=, sessions-append, states-all_new, unused,
}

queue_or_free-Makes :
    (lw : Lw) (client : HttpClient) (cmds : List Command) (lw' : Lw)
    → lw'.http ≡ lw.http
    → lw'.next_id ≡ suc lw.next_id
    → client.id ≡ lw.next_id
    → client.local ≡ true
    → all_new cmds ≡ true
    → IsValid (view lw)
    → Makes lw (queue_or_free (record client { cmdq = cmds }) lw')
unfolding queue_or_free free_http_client
queue_or_free-Makes lw client [] lw' same next id here new v =
    rw (same, id, stailq_remove-missing lw.next_id lw.http (unused lw.next_id lw.http v.0)) faults
queue_or_free-Makes lw client (c ∷ cs) lw' same next id here new v = returns _ (
    one (
      spawn (session (record client { state = http_client_request_complete; cmdq = c ∷ cs })) id
        here refl (states-all_new (c ∷ cs) new) (rw same (sessions-append lw.http _)) next))

set_mac_params-Makes : (lw : Lw) → IsValid (view lw) → Makes lw (set_mac_params lw)
unfolding set_mac_params create_http_client
set_mac_params-Makes lw v =
    Ensures->>= (collect_dirty-all_new mac_tokens lw.lwan_ctx.mac_params) λ (cmds, mac) new.
      queue_or_free-Makes lw (record (create_http_client lw 0) { local = true }) cmds _ refl refl
        refl refl new v

generate_ctx-Makes : (lw : Lw) → Makes lw (generate_ctx lw)
unfolding generate_ctx create_http_client
generate_ctx-Makes lw = Ensures->>= (deref-make_cmd _ _ none 5 cmd_internal) λ delay new.
    Ensures->>= (deref-make_cmd _ _ none 0 cmd_internal) λ acquire new'.
      returns _ (one (spawn _ refl refl refl (new, (new', tt)) (sessions-append lw.http _) refl))

start_or_free-Makes :
    (lw : Lw) (client : HttpClient) (cmds : List Command) (lw' : Lw)
    → lw'.http ≡ lw.http
    → lw'.next_id ≡ suc lw.next_id
    → client.id ≡ lw.next_id
    → client.local ≡ true
    → all_new cmds ≡ true
    → Makes lw (start_or_free (record client { cmdq = cmds }) lw')
unfolding start_or_free free_http_client stailq_remove
start_or_free-Makes lw client [] lw' same next id here new =
    rw (==_refl client.id, stailq_remove) (rw here (returns _ (one (skip (rw same refl) next))))
start_or_free-Makes lw client (c ∷ cs) lw' same next id here new = returns _ (
    one (
      restore (session (record client { state = http_client_request_complete; cmdq = c ∷ cs })) id
        here refl (states-all_new (c ∷ cs) new) (rw same refl) next))

pub restore_firmware_context-Makes : (lw : Lw) → Makes lw (restore_firmware_context lw)
unfolding restore_firmware_context create_http_client
restore_firmware_context-Makes lw = Ensures->>= (restore_cmds-all_new 7 0 lw.lwan_ctx) λ cmds new.
    start_or_free-Makes lw
      (record (create_http_client lw 0) { local = true; restore_context = true }) cmds _ refl refl
      refl refl new

pub count_event-Makes : (lw : Lw) → Makes lw (count_event lw)
unfolding count_event
count_event-Makes lw = elim (Bool-cases (update_cntr lw.ctx_mngr).1) [
  | inl tenth ↦ rw (tenth, count_event) (generate_ctx-Makes _)
  | inr other ↦ rw (other, count_event) (returns _ stay)
]

restore_event-Makes : (lw : Lw) → Makes lw (restore_event lw)
unfolding restore_event
restore_event-Makes lw = Ensures->>= (Ensures-any (check_if_client_error lw)) λ b _. by_error b
  where
    by_error : (b : Bool) → Makes lw (elim b [ true ↦ restore_firmware_context lw | false ↦ ok lw ])
    by_error true = restore_firmware_context-Makes lw
    by_error false = returns lw stay

write_context-view : (env : Env) (lw : Lw) → view (write_context env lw) ≡ view lw
unfolding write_context
write_context-view env lw = ground arith

context_acquired-Makes :
    (env : Env) (cmd : Command) (lw : Lw) → Makes lw (context_acquired env cmd lw)
unfolding context_acquired
context_acquired-Makes env cmd lw =
    Ensures->>=
      (Ensures-any
        (acquire_loop (suc (length cmd.buf)) (length cmd.buf) 0 (c_string cmd.buf) lw.lwan_ctx))
      λ ctx _. returns _ (rw (write_context-view env (record lw { lwan_ctx = ctx })) stay)

-- Whatever the event, the clients come to their new state by moves.
pub context_manager_event-Makes :
    (env : Env) (type : CmdType) (cmd : Option Command) (lw : Lw)
    → IsValid (view lw)
    → Makes lw (context_manager_event env type cmd lw)
unfolding context_manager_event reset_lwan_ctx
context_manager_event-Makes env cmd_async_recv cmd lw v = count_event-Makes lw
context_manager_event-Makes env cmd_send_binary cmd lw v = count_event-Makes lw
context_manager_event-Makes env cmd_send_text cmd lw v = count_event-Makes lw
context_manager_event-Makes env cmd_join cmd lw v =
    Makes->>= lw v (set_mac_params-Makes lw v) λ lw' v'. generate_ctx-Makes lw'
context_manager_event-Makes env cmd_acquire_context none lw v = faults
context_manager_event-Makes env cmd_acquire_context (some cmd) lw v =
    context_acquired-Makes env cmd lw
context_manager_event-Makes env cmd_restore_context cmd lw v = restore_event-Makes lw
context_manager_event-Makes env cmd_reset cmd lw v = restore_firmware_context-Makes lw
context_manager_event-Makes env cmd_hard_reset cmd lw v = returns _ stay
context_manager_event-Makes env cmd_force_update cmd lw v = set_mac_params-Makes lw v
context_manager_event-Makes env _ cmd lw v = returns lw stay
