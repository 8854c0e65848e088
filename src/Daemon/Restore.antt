-- ===== src/Daemon/Restore.antt =====
-- The start of the daemon: `context_manager_init` reads the context file, and
-- `restore_firmware_context` queues the commands that bring the saved contexts back to the board.
use lorawanatd_canarin.Base.{
  ℕ, zero, suc, ◌+◌, ◌≡◌, refl, subst, sym, ◌∙◌, true, false, List, [], ◌∷◌, ◌++◌, some, codes,
  append-nil, Outcome, ok, ◌>>=◌, >>=-ok, c_prefix, length, none, get_or, ◌==◌, Bool-cases, inl,
  inr, if◌then◌else◌, strncmp_eq,
}
use lorawanatd_canarin.LwanContext.{LwanContext}
use lorawanatd_canarin.Command.Types.{Command, cmd_delay, cmd_internal, internal}
use lorawanatd_canarin.Command.Make.{make_cmd, find_def, is_wanted}
use lorawanatd_canarin.Command.Table.{cmd_def_list}
use lorawanatd_canarin.Command.Construct.{construct, context_restore_text}
use lorawanatd_canarin.State.{Lw, HttpClient}
use lorawanatd_canarin.Clients.{allocated, create_http_client, free_http_client, stailq_remove}
use lorawanatd_canarin.Context.Acquire.{confirm_queue}
use lorawanatd_canarin.Context.File.{read_context, reset_lwan_ctx}
use lorawanatd_canarin.Context.Firmware.{
  ctx_res_token, delay_token, restore_cmds, start_or_free, restore_firmware_context,
}
use lorawanatd_canarin.Context.Params.{remember}
use lorawanatd_canarin.Context.Event.{context_manager_init}
use lorawanatd_canarin.Daemon.Steps.{boot, blank}

-- The types from `type` over the next `left` whose context was saved.
abbrev pub saved_types : ℕ → ℕ → LwanContext → List ℕ
saved_types zero type ctx = []
saved_types (suc left) type ctx =
    let rest = saved_types left (type + 1) ctx in
    if get_or ctx.ctx_len type 0 == 0 then rest else type ∷ rest

-- For each type a command that sends "AT" and the saved context, and a delay of two seconds.
abbrev pub Restores : LwanContext → List ℕ → List Command → Type 0
Restores ctx [] [] = Unit
Restores ctx [] (c ∷ cs) = ⊥
Restores ctx (t ∷ ts) [] = ⊥
Restores ctx (t ∷ ts) (r ∷ []) = ⊥
Restores ctx (t ∷ ts) (r ∷ d ∷ cs) =
    ((now : ℕ)
      → (construct r.def.construct_cmd ctx now r >>= λ b. ok b.text)
        ≡ ok (codes "AT" ++ c_prefix (get_or ctx.ctx_len t 0) (get_or ctx.ctx t [])))
    × (d.def.type ≡ cmd_delay)
    × (d.timeout ≡ 2)
    × Restores ctx ts cs

abbrev pub queued : List HttpClient → List Command
queued [] = []
queued (c ∷ cs) = c.cmdq ++ queued cs

-- The command that restores a type, and the delay behind it.
record Pair (type : ℕ) : Type 0 where
  restore : Command
  delay : Command
  restore_made :
      make_cmd ctx_res_token (length ctx_res_token) (some (internal type)) 0 cmd_internal
      ≡ some restore
  delay_made : make_cmd delay_token (length delay_token) none 2 cmd_internal ≡ some delay
  restores :
      (ctx : LwanContext) (now : ℕ)
      → (construct restore.def.construct_cmd ctx now restore >>= λ b. ok b.text)
        ≡ ok (codes "AT" ++ c_prefix (get_or ctx.ctx_len type 0) (get_or ctx.ctx type []))
  delays : delay.def.type ≡ cmd_delay
  seconds : delay.timeout ≡ 2

pair : (type : ℕ) → Pair type
unfolding make_cmd find_def is_wanted cmd_def_list strncmp_eq construct context_restore_text
pair type = record {
  restore = _;
  delay = _;
  restore_made = refl;
  delay_made = refl;
  restores = λ ctx now. refl;
  delays = refl;
  seconds = refl;
}

restore_cmds-next :
    (left type : ℕ) (ctx : LwanContext) (cmds : List Command) (p : Pair type)
    → (get_or ctx.ctx_len type 0 == 0) ≡ false
    → restore_cmds left (type + 1) ctx ≡ ok cmds
    → restore_cmds (suc left) type ctx ≡ ok (p.restore ∷ p.delay ∷ cmds)
unfolding restore_cmds
restore_cmds-next left type ctx cmds p saved rest =
    rw (rest, restore_cmds) (rw saved (rw p.delay_made (rw p.restore_made refl)))

restore_cmds-Restores :
    (left type : ℕ) (ctx : LwanContext)
    → (cmds : List Command) × (restore_cmds left type ctx ≡ ok cmds)
      × Restores ctx (saved_types left type ctx) cmds
unfolding restore_cmds
restore_cmds-Restores zero type ctx = ([], refl, tt)
restore_cmds-Restores (suc left) type ctx =
    let (cmds, made, all) = restore_cmds-Restores left (type + 1) ctx in
    elim (Bool-cases (get_or ctx.ctx_len type 0 == 0)) [
      | inl empty ↦ (cmds, rw (made, restore_cmds) (rw empty refl), rw empty all)
      | inr saved ↦
          let p = pair type in
          (
            p.restore ∷ p.delay ∷ cmds,
            restore_cmds-next left type ctx cmds p saved made,
            rw saved (p.restores ctx, p.delays, p.seconds, all),
          )
    ]

-- What `restore_firmware_context` does with its commands at the start.
abbrev begin : LwanContext → List Command → Outcome Lw
begin ctx cmds =
    start_or_free (record client { local = true; restore_context = true; cmdq = cmds })
      (remember (some client.id) (allocated lw))
  where
    lw : Lw
    lw = record (blank (some ctx)) { lwan_ctx = ctx }

    client : HttpClient
    client = create_http_client lw 0

boot-begin :
    (ctx : LwanContext) (cmds : List Command)
    → restore_cmds (suc confirm_queue) 0 ctx ≡ ok cmds
    → boot (some ctx) ≡ begin ctx cmds
unfolding boot context_manager_init read_context reset_lwan_ctx restore_firmware_context
boot-begin ctx cmds made = >>=-ok (restore_cmds (suc confirm_queue) 0 ctx) (begin ctx) made

-- The commands are queued with one client, which is freed again if there are none.
begin-queued :
    (ctx : LwanContext) (cmds : List Command)
    → (lw : Lw) × (begin ctx cmds ≡ ok lw)
      × (lw.lwan_ctx ≡ ctx)
      × (queued lw.http ≡ cmds)
      × (cmds ≡ [] → lw.http ≡ [])
unfolding start_or_free free_http_client stailq_remove create_http_client
begin-queued ctx [] = (_, refl, refl, refl, λ e. refl)
begin-queued ctx (c ∷ cs) = (_, refl, refl, append-nil (c ∷ cs), λ e. absurd (cc))

Restores-none : (ctx : LwanContext) (cmds : List Command) → Restores ctx [] cmds → cmds ≡ []
Restores-none ctx [] h = refl
Restores-none ctx (c ∷ cs) h = absurd h

-- The daemon that starts with a context file takes its context over whole, and queues for every
-- context in it that is not empty, in the order of the types, a command that sends it to the
-- board behind "AT" and a delay of two seconds; with no such context no client stays.
pub boot-Restores :
    (ctx : LwanContext)
    → (lw : Lw) × (boot (some ctx) ≡ ok lw)
      × (lw.lwan_ctx ≡ ctx)
      × Restores ctx (saved_types (suc confirm_queue) 0 ctx) (queued lw.http)
      × (saved_types (suc confirm_queue) 0 ctx ≡ [] → lw.http ≡ [])
boot-Restores ctx =
    let (cmds, made, all) = restore_cmds-Restores (suc confirm_queue) 0 ctx in
    let (lw, begun, same, queue, none_left) = begin-queued ctx cmds in
    (
      lw,
      boot-begin ctx cmds made ∙ begun,
      same,
      subst (Restores ctx (saved_types (suc confirm_queue) 0 ctx)) (sym queue) all,
      λ e. none_left (Restores-none ctx cmds (subst (λ ts. Restores ctx ts cmds) e all)),
    )
