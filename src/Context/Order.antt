-- ===== src/Context/Order.antt =====
-- What the context manager's events do to the queue of clients: the clients that they add hold
-- new commands only.
use lorawanatd_canarin.Base.{
  ℕ, zero, suc, ◌+◌, ◌≡◌, refl, subst, sym, c_string, Bool, true, false, List, [], ◌∷◌, ◌++◌,
  Option, none, some, arith, Bytes, Outcome, ok, Ensures, returns, faults, Ensures->>=, Ensures-any,
  Bool-cases, inl, inr, All, All-append, length, get_or, print_u, ◌==◌,
}
use lorawanatd_canarin.LwanContext.{LwanContext, MacParams, test_bit, clear_bit}
use lorawanatd_canarin.Command.Types.{
  Command, CmdType, cmd_new, set, internal, cmd_set, cmd_internal, cmd_async_recv, cmd_send_binary,
  cmd_send_text, cmd_join, cmd_acquire_context, cmd_restore_context, cmd_reset, cmd_hard_reset,
  cmd_force_update,
}
use lorawanatd_canarin.Command.Order.{
  all_new, is_resting, is_resting-all_new, deref-make_cmd, make_cmd-new, all_new-cons,
}
use lorawanatd_canarin.State.{Lw, Env, HttpClient}
use lorawanatd_canarin.Clients.{stailq_remove, free_http_client, create_http_client}
use lorawanatd_canarin.Context.Params.{
  collect_dirty, queue_or_free, set_mac_params, mac_tokens, to_hardware, update_cntr,
}
use lorawanatd_canarin.Context.Firmware.{
  option_list, generate_ctx, restore_cmds, start_or_free, restore_firmware_context,
}
use lorawanatd_canarin.Context.File.{reset_lwan_ctx, write_context}
use lorawanatd_canarin.Context.Acquire.{acquire_loop, context_acquired}
use lorawanatd_canarin.Context.Event.{
  check_if_client_error, count_event, restore_event, context_manager_event,
}

-- No client has a command that is executing.
abbrev pub AllResting : List HttpClient → Type 0
AllResting = All (λ c. is_resting c.cmdq ≡ true)

pub collect_dirty-all_new :
    (params : List (ℕ × Bytes)) (mac : MacParams)
    → Ensures (λ (r : List Command × MacParams). all_new r.0 ≡ true) (collect_dirty params mac)
unfolding collect_dirty all_new
collect_dirty-all_new [] mac = returns ([], mac) refl
collect_dirty-all_new ((i, token) ∷ params) mac = elim (Bool-cases (test_bit mac.dirty i)) [
  | inl dirty ↦
      let text = print_u (get_or mac.params i 0) in
      rw (dirty, collect_dirty)
        (Ensures->>= (deref-make_cmd token (length token) (some (set text (length text))) 0 cmd_set)
          λ cmd new.
            Ensures->>=
              (collect_dirty-all_new params (record mac { dirty = clear_bit mac.dirty i }))
              λ (cmds, mac') rest. returns _ (all_new-cons (to_hardware cmd) cmds new rest))
  | inr clean ↦ rw (clean, collect_dirty) (collect_dirty-all_new params mac)
]

pub stailq_remove-All {κ} :
    {P : HttpClient → Type κ} (id : ℕ) (cs : List HttpClient)
    → All P cs
    → Ensures (All P) (stailq_remove id cs)
unfolding stailq_remove
stailq_remove-All id [] h = faults
stailq_remove-All id (c ∷ cs) h = elim (Bool-cases (c.id == id)) [
  | inl hit ↦ rw (hit, stailq_remove) (returns cs h.1)
  | inr miss ↦
      rw (miss, stailq_remove)
        (Ensures->>= (stailq_remove-All id cs h.1) λ cs' rest. returns (c ∷ cs') (h.0, rest))
]

-- Freeing a client keeps what holds of every client.
pub free_http_client-All {κ} :
    {P : HttpClient → Type κ} (client : HttpClient) (lw : Lw)
    → All P lw.http
    → Ensures (λ (lw' : Lw). All P lw'.http) (free_http_client client lw)
unfolding free_http_client
free_http_client-All client lw h =
    Ensures->>= (stailq_remove-All client.id lw.http h) λ rest kept. returns _ kept

abbrev pub KeepsResting : Outcome Lw → Type 0
KeepsResting = Ensures (λ (lw : Lw). AllResting lw.http)

queue_or_free-rests :
    (client : HttpClient) (lw : Lw) (cmds : List Command)
    → all_new cmds ≡ true
    → AllResting lw.http
    → KeepsResting (queue_or_free (record client { cmdq = cmds }) lw)
unfolding queue_or_free
queue_or_free-rests client lw [] new h =
    Ensures->>= (free_http_client-All (record client { cmdq = [] }) lw h)
      λ lw' rests. returns _ rests
queue_or_free-rests client lw (c ∷ cs) new h =
    returns _ (All-append _ lw.http _ h (is_resting-all_new (c ∷ cs) new, tt))

set_mac_params-rests : (lw : Lw) → AllResting lw.http → KeepsResting (set_mac_params lw)
unfolding set_mac_params
set_mac_params-rests lw h =
    Ensures->>= (collect_dirty-all_new mac_tokens lw.lwan_ctx.mac_params) λ (cmds, mac) new.
      queue_or_free-rests (record (create_http_client lw 0) { local = true }) _ cmds new h

generate_ctx-rests : (lw : Lw) → AllResting lw.http → KeepsResting (generate_ctx lw)
unfolding generate_ctx is_resting all_new
generate_ctx-rests lw h = Ensures->>= (deref-make_cmd _ _ none 5 cmd_internal) λ delay new.
    Ensures->>= (deref-make_cmd _ _ none 0 cmd_internal)
      λ acquire new'. returns _ (All-append _ lw.http _ h (ground arith, tt))

option_list-all_new :
    (o : Option Command) (cmds : List Command)
    → ((cmd : Command) → o ≡ some cmd → cmd.state ≡ cmd_new)
    → all_new cmds ≡ true
    → all_new (option_list o ++ cmds) ≡ true
unfolding all_new
option_list-all_new none cmds h new = new
option_list-all_new (some cmd) cmds h new = ground (arith, h cmd refl)

pub restore_cmds-all_new :
    (left type : ℕ) (ctx : LwanContext)
    → Ensures (λ (cmds : List Command). all_new cmds ≡ true) (restore_cmds left type ctx)
unfolding restore_cmds
restore_cmds-all_new zero type ctx = returns [] (unfold all_new in refl)
restore_cmds-all_new (suc left) type ctx =
    Ensures->>= (restore_cmds-all_new left (type + 1) ctx) λ rest new.
      elim (Bool-cases (get_or ctx.ctx_len type 0 == 0)) [
        | inl empty ↦ rw (empty, restore_cmds) (returns rest new)
        | inr saved ↦
            rw (saved, restore_cmds)
              (Ensures->>= (deref-make_cmd _ _ none 2 cmd_internal) λ delay new'. returns _ (
                option_list-all_new _ _
                  (λ cmd. make_cmd-new _ _ (some (internal type)) 0 cmd_internal)
                  (all_new-cons delay rest new' new)))
      ]

start_or_free-rests :
    (client : HttpClient) (lw : Lw) (cmds : List Command)
    → all_new cmds ≡ true
    → AllResting lw.http
    → KeepsResting (start_or_free (record client { cmdq = cmds }) lw)
unfolding start_or_free
start_or_free-rests client lw [] new h =
    Ensures->>=
      (free_http_client-All (record client { cmdq = [] })
        (record lw { http = record client { cmdq = [] } ∷ lw.http }) (is_resting-all_new [] new, h))
      λ lw' rests. returns _ rests
start_or_free-rests client lw (c ∷ cs) new h = returns _ (is_resting-all_new (c ∷ cs) new, h)

pub restore_firmware_context-rests :
    (lw : Lw) → AllResting lw.http → KeepsResting (restore_firmware_context lw)
unfolding restore_firmware_context
restore_firmware_context-rests lw h = Ensures->>= (restore_cmds-all_new 7 0 lw.lwan_ctx) λ cmds new.
    start_or_free-rests (record (create_http_client lw 0) { local = true; restore_context = true })
      _ cmds new h

count_event-rests : (lw : Lw) → AllResting lw.http → KeepsResting (count_event lw)
unfolding count_event
count_event-rests lw h = elim (Bool-cases (update_cntr lw.ctx_mngr).1) [
  | inl tenth ↦ rw (tenth, count_event) (generate_ctx-rests _ h)
  | inr other ↦ rw (other, count_event) (returns _ h)
]

restore_event-rests : (lw : Lw) → AllResting lw.http → KeepsResting (restore_event lw)
unfolding restore_event
restore_event-rests lw h = Ensures->>= (Ensures-any (check_if_client_error lw)) λ b _. by_error b
  where
    by_error :
        (b : Bool) → KeepsResting (elim b [ true ↦ restore_firmware_context lw | false ↦ ok lw ])
    by_error true = restore_firmware_context-rests lw h
    by_error false = returns lw h

write_context-http : (env : Env) (lw : Lw) → (write_context env lw).http ≡ lw.http
unfolding write_context
write_context-http env lw = ground arith

context_acquired-rests :
    (env : Env) (cmd : Command) (lw : Lw)
    → AllResting lw.http
    → KeepsResting (context_acquired env cmd lw)
unfolding context_acquired
context_acquired-rests env cmd lw h =
    Ensures->>=
      (Ensures-any
        (acquire_loop (suc (length cmd.buf)) (length cmd.buf) 0 (c_string cmd.buf) lw.lwan_ctx))
      λ ctx _. returns _ (subst AllResting (sym (write_context-http env _)) h)

-- No event of the context manager leaves a command executing where there was none.
pub context_manager_event-rests :
    (env : Env) (type : CmdType) (cmd : Option Command) (lw : Lw)
    → AllResting lw.http
    → KeepsResting (context_manager_event env type cmd lw)
unfolding context_manager_event reset_lwan_ctx
context_manager_event-rests env cmd_async_recv cmd lw h = count_event-rests lw h
context_manager_event-rests env cmd_send_binary cmd lw h = count_event-rests lw h
context_manager_event-rests env cmd_send_text cmd lw h = count_event-rests lw h
context_manager_event-rests env cmd_join cmd lw h =
    Ensures->>= (set_mac_params-rests lw h) λ lw' rests. generate_ctx-rests lw' rests
context_manager_event-rests env cmd_acquire_context none lw h = faults
context_manager_event-rests env cmd_acquire_context (some cmd) lw h =
    context_acquired-rests env cmd lw h
context_manager_event-rests env cmd_restore_context cmd lw h = restore_event-rests lw h
context_manager_event-rests env cmd_reset cmd lw h = restore_firmware_context-rests lw h
context_manager_event-rests env cmd_hard_reset cmd lw h = returns _ h
context_manager_event-rests env cmd_force_update cmd lw h = set_mac_params-rests lw h
context_manager_event-rests env _ cmd lw h = returns lw h
