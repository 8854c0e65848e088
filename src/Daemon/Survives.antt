-- ===== src/Daemon/Survives.antt =====
-- A context of the board outlives the daemon: it is acquired, written to the file, read at the
-- next start, and sent back to the board.
use mathlib.Core.List.{Memᴰ}
use lorawanatd_canarin.Base.{
  ℕ, zero, suc, ◌+◌, ◌≡◌, ◌≢◌, ◌≤◌, ◌<◌, refl, sym, subst, ap, ◌∙◌, false, List, [], ◌∷◌, ◌++◌,
  Bytes, some, codes, ok, ◌>>=◌, All, arith, length, c_prefix, c_prefix-all, get_or, ◌==◌,
  strncmp_eq, Bool-cases, inl, inr,
}
use lorawanatd_canarin.LwanContext.{LwanContext}
use lorawanatd_canarin.Command.Types.{Command}
use lorawanatd_canarin.Command.Construct.{construct}
use lorawanatd_canarin.State.{Lw, Env, written}
use lorawanatd_canarin.Context.Acquire.{context_acquired, confirm_queue}
use lorawanatd_canarin.Context.File.{write_context}
use lorawanatd_canarin.Context.Lines.{IsLine, lines_text, store_lines, context_acquired-lines}
use lorawanatd_canarin.Context.Stored.{
  IsWhole, Holds, type_of, IsContext, type_of-lt, store_lines-Holds,
}
use lorawanatd_canarin.Daemon.Steps.{boot}
use lorawanatd_canarin.Daemon.Restore.{saved_types, Restores, queued, boot-Restores}

-- One of the commands sends this text, whenever it is started.
abbrev pub Sends : LwanContext → Bytes → List Command → Type 0
Sends ctx text cmds =
    (r : Command) × Memᴰ r cmds
    × ((now : ℕ) → (construct r.def.construct_cmd ctx now r >>= λ b. ok b.text) ≡ ok text)

Restores-Sends :
    (ctx : LwanContext) (t : ℕ) (ts : List ℕ) (cmds : List Command)
    → Restores ctx ts cmds
    → Memᴰ t ts
    → Sends ctx (codes "AT" ++ c_prefix (get_or ctx.ctx_len t 0) (get_or ctx.ctx t [])) cmds
Restores-Sends ctx t [] cmds h m = elim m [ ]
Restores-Sends ctx t (u ∷ ts) [] h m = absurd h
Restores-Sends ctx t (u ∷ ts) (r ∷ []) h m = absurd h
Restores-Sends ctx t (u ∷ ts) (r ∷ d ∷ cs) h (Memᴰ.head e) =
    (r, Memᴰ.head refl, λ now. rw e (h.0 now))
Restores-Sends ctx t (u ∷ ts) (r ∷ d ∷ cs) h (Memᴰ.tail m) =
    let (q, at, sends) = Restores-Sends ctx t ts cs h.3 m in (q, Memᴰ.tail (Memᴰ.tail at), sends)

saved_types-mem :
    (left type : ℕ) (ctx : LwanContext) (t : ℕ)
    → type ≤ t
    → t < type + left
    → (get_or ctx.ctx_len t 0 == 0) ≡ false
    → Memᴰ t (saved_types left type ctx)
saved_types-mem zero type ctx t low high saved = absurd (omega arith)
saved_types-mem (suc left) type ctx t low high saved = elim (Bool-cases (t == type)) [
  | inl here ↦
      let e : t ≡ type = ground arith in
      let full : (get_or ctx.ctx_len type 0 == 0) ≡ false =
        subst (λ u. (get_or ctx.ctx_len u 0 == 0) ≡ false) e saved in
      rw full (Memᴰ.head e)
  | inr later ↦
      let rest : Memᴰ t (saved_types left (type + 1) ctx) =
        saved_types-mem left (type + 1) ctx t (ground arith) (omega arith) saved in
      elim (Bool-cases (get_or ctx.ctx_len type 0 == 0)) [
        | inl empty ↦ rw empty rest
        | inr full ↦ rw full (Memᴰ.tail rest)
      ]
]

not_empty : (l : Bytes) → IsContext l → (length l == 0) ≡ false
unfolding strncmp_eq
not_empty [] h = absurd (cc)
not_empty (c ∷ l) h = ground arith

IsLine-at :
    (before : List Bytes) (l : Bytes) (after : List Bytes)
    → All IsLine (before ++ l ∷ after)
    → IsLine l
IsLine-at [] l after h = h.0
IsLine-at (b ∷ before) l after h = IsLine-at before l after h.1

write_context-file :
    (env : Env) (lw : Lw)
    → env.file_write ≡ written
    → (write_context env lw).file ≡ some lw.lwan_ctx
unfolding write_context
write_context-file env lw e = ground arith

-- If the board's answer has its lines in order and the file can be written, a daemon that starts
-- with that file queues, for every context in the answer that no later line of its type replaces,
-- a command that sends "AT" and that line to the board, byte for byte.
pub context_acquired-boot :
    (env : Env) (cmd : Command) (lw : Lw) (before : List Bytes) (l : Bytes) (after : List Bytes)
    → cmd.buf ≡ lines_text (before ++ l ∷ after)
    → All IsLine (before ++ l ∷ after)
    → IsContext l
    → All (λ a. IsContext a → type_of a ≢ type_of l) after
    → IsWhole lw.lwan_ctx
    → env.file_write ≡ written
    → (saved : Lw) × (begun : Lw) × (context_acquired env cmd lw ≡ ok saved)
      × (boot saved.file ≡ ok begun)
      × Sends begun.lwan_ctx (codes "AT" ++ l) (queued begun.http)
context_acquired-boot env cmd lw before l after text lines context last whole can_write =
    let line : IsLine l = IsLine-at before l after lines in
    let ctx : LwanContext = store_lines (before ++ l ∷ after) lw.lwan_ctx in
    let saved : Lw = write_context env (record lw { lwan_ctx = ctx }) in
    let holds : Holds ctx (type_of l) l =
      store_lines-Holds before l after lw.lwan_ctx whole line context last in
    let (begun, boots, same, restores, none_left) = boot-Restores ctx in
    let full : (get_or ctx.ctx_len (type_of l) 0 == 0) ≡ false =
      subst (λ n. (n == 0) ≡ false) (sym holds.1) (not_empty l context) in
    let sends = Restores-Sends ctx (type_of l) _ (queued begun.http) restores (
      saved_types-mem (suc confirm_queue) 0 ctx (type_of l) (omega arith)
        (type_of-lt l line context) full) in
    let body : c_prefix (get_or ctx.ctx_len (type_of l) 0) (get_or ctx.ctx (type_of l) []) ≡ l =
      rw (holds.0, holds.1) (c_prefix-all (length l) l line.clean (omega arith)) in
    (
      saved,
      begun,
      context_acquired-lines env cmd lw (before ++ l ∷ after) text lines,
      ap boot (write_context-file env (record lw { lwan_ctx = ctx }) can_write) ∙ boots,
      subst (λ c. Sends c (codes "AT" ++ l) (queued begun.http)) (sym same)
          (subst (λ b. Sends ctx (codes "AT" ++ b) (queued begun.http)) body sends),
    )
