-- ===== src/Context/Lines.antt =====
-- The answer to `AT+CTX=?` taken apart, and a context that goes back to the board.
use lorawanatd_canarin.Base.{
  ℕ, zero, suc, ◌+◌, ◌-◌, ◌≡◌, ◌≤◌, ◌<◌, refl, ap, true, false, List, [], ◌∷◌, ◌++◌, Bytes, some,
  ok, unfinished, NoNul, c_string-whole, All, All-append, arith, length, length-append, get_or-set,
  leb, ltb, ◌==◌, get_or, starts_with, strncmp_eq, Bool-cases, inl, inr, if◌then◌else◌,
  c_prefix-all,
}
use lorawanatd_canarin.LwanContext.{LwanContext}
use lorawanatd_canarin.Command.Types.{Command, context_type_of}
use lorawanatd_canarin.Command.Construct.{context_restore_text}
use lorawanatd_canarin.State.{Lw, Env}
use lorawanatd_canarin.Context.File.{write_context}
use lorawanatd_canarin.Context.Acquire.{
  newline, split_line, acquire_loop, context_acquired, store_context, is_context_type, ctx_prefix,
  ctx_size,
}

-- The lines of an answer, each with a line break behind it.
abbrev pub lines_text : List Bytes → Bytes
lines_text [] = []
lines_text (l ∷ ls) = l ++ (newline ++ lines_text ls)

-- A line has no carriage return and no NUL, fits into the buffer for one context, and has a known
-- type if it is a context.
pub record IsLine (l : Bytes) : Type 0 where
  pub unbroken : All (λ c. (b'\r' == c) ≡ false) l
  pub clean : NoNul l
  pub short : length l < ctx_size
  pub known : strncmp_eq l ctx_prefix 5 ≡ true → is_context_type (get_or l 5 0) ≡ true

abbrev pub store_line : Bytes → LwanContext → LwanContext
store_line l ctx = if strncmp_eq l ctx_prefix 5 then store_context l ctx else ctx

abbrev pub store_lines : List Bytes → LwanContext → LwanContext
store_lines [] ctx = ctx
store_lines (l ∷ ls) ctx = store_lines ls (store_line l ctx)

split_line-unbroken :
    (l rest : Bytes)
    → All (λ c. (b'\r' == c) ≡ false) l
    → split_line (l ++ (newline ++ rest)) ≡ some (l, rest)
unfolding split_line starts_with
split_line-unbroken [] rest h = refl
split_line-unbroken (c ∷ l) rest h = rw h.0 (rw (split_line-unbroken l rest h.1) refl)

NoNul-lines : (ls : List Bytes) → All IsLine ls → NoNul (lines_text ls)
NoNul-lines [] h = tt
NoNul-lines (l ∷ ls) h =
    All-append _ l (newline ++ lines_text ls) h.0.clean (refl, (refl, NoNul-lines ls h.1))

-- The loop on all the lines: `pos` bytes are behind it, and it has fuel for each line.
acquire_loop-lines :
    (fuel pos buf_len : ℕ) (ls : List Bytes) (ctx : LwanContext)
    → length ls < fuel
    → pos + length (lines_text ls) ≤ buf_len
    → All IsLine ls
    → acquire_loop fuel buf_len pos (lines_text ls) ctx ≡ ok (store_lines ls ctx)
unfolding acquire_loop
acquire_loop-lines zero pos buf_len ls ctx enough fits h = absurd (omega arith)
acquire_loop-lines (suc fuel) pos buf_len [] ctx enough fits h = unfold split_line in refl
acquire_loop-lines (suc fuel) pos buf_len (l ∷ ls) ctx enough fits h =
    let rest : (ctx' : LwanContext)
        → acquire_loop fuel buf_len (pos + length l + 2) (lines_text ls) ctx'
          ≡ ok (store_lines ls ctx') =
      λ ctx'.
        acquire_loop-lines fuel (pos + length l + 2) buf_len ls ctx' (omega arith)
          (omega (arith, len, fits)) h.1 in
    rw (split_line-unbroken l (lines_text ls) h.0.unbroken, acquire_loop)
      (rw short (elim (Bool-cases (strncmp_eq l ctx_prefix 5)) [
        | inr other ↦ rw other (rw next_in (rest ctx))
        | inl context ↦ rw (context, h.0.known context) (rw next_in (rest (store_context l ctx)))
      ]))
  where
    len : length (l ++ (newline ++ lines_text ls)) ≡ length l + (2 + length (lines_text ls))
    len = omega (arith, length-append l (newline ++ lines_text ls))

    short : ltb (length l) ctx_size ≡ true
    short = let s = h.0.short in ground (arith, s)

    next_in : leb (pos + length l + 2) buf_len ≡ true
    next_in = ground (arith, len, fits)

lines-length : (ls : List Bytes) → length ls ≤ length (lines_text ls)
lines-length [] = omega arith
lines-length (l ∷ ls) = omega (arith, lines-length ls, length-append l (newline ++ lines_text ls))

pub context_acquired-lines :
    (env : Env) (cmd : Command) (lw : Lw) (ls : List Bytes)
    → cmd.buf ≡ lines_text ls
    → All IsLine ls
    → context_acquired env cmd lw
      ≡ ok (write_context env (record lw { lwan_ctx = store_lines ls lw.lwan_ctx }))
unfolding context_acquired
context_acquired-lines env cmd lw ls e h =
    rw (e, c_string-whole (lines_text ls) (NoNul-lines ls h))
      (rw
        (acquire_loop-lines (suc (length (lines_text ls))) 0 (length (lines_text ls)) ls lw.lwan_ctx
          (let le = lines-length ls in omega (arith, le)) (omega arith) h)
        refl)

-- A context whose type is unknown is met again and again: the loop does not end, however often
-- it is gone through.
pub acquire_loop-unknown :
    (fuel pos buf_len : ℕ) (l rest : Bytes) (ctx : LwanContext)
    → All (λ c. (b'\r' == c) ≡ false) l
    → length l < ctx_size
    → strncmp_eq l ctx_prefix 5 ≡ true
    → is_context_type (get_or l 5 0) ≡ false
    → pos ≤ buf_len
    → acquire_loop fuel buf_len pos (l ++ (newline ++ rest)) ctx ≡ unfinished
unfolding acquire_loop
acquire_loop-unknown zero pos buf_len l rest ctx unbroken short context unknown inside = refl
acquire_loop-unknown (suc fuel) pos buf_len l rest ctx unbroken short context unknown inside =
    rw (split_line-unbroken l rest unbroken, acquire_loop)
      (rw (fits, context)
        (rw (unknown, here)
          (acquire_loop-unknown fuel pos buf_len l rest ctx unbroken short context unknown inside)))
  where
    fits : ltb (length l) ctx_size ≡ true
    fits = ground arith

    here : leb pos buf_len ≡ true
    here = ground arith

-- A context that the board has sent goes back to it byte for byte: once a line is stored, the
-- command that restores its type is "AT" with the line behind it.
context_restore-store :
    (cmd : Command) (ctx : LwanContext) (l : Bytes)
    → IsLine l
    → strncmp_eq l ctx_prefix 5 ≡ true
    → length ctx.ctx ≡ 7
    → length ctx.ctx_len ≡ 7
    → context_type_of cmd.param ≡ get_or l 5 0 - b'0'
    → context_restore_text (store_context l ctx) cmd ≡ cmd.def.cmd ++ l
unfolding context_restore_text
context_restore-store cmd ctx l line context seven seven' type =
    rw
      (
        type,
        get_or-set ctx.ctx (get_or l 5 0 - b'0') l [] below,
        get_or-set ctx.ctx_len (get_or l 5 0 - b'0') (length l) 0 below',
      )
      (ap (λ r. cmd.def.cmd ++ r) (c_prefix-all (length l) l line.clean (omega arith)))
  where
    known : is_context_type (get_or l 5 0) ≡ true
    known = line.known context

    below : get_or l 5 0 - b'0' < length ctx.ctx
    below = ground (arith, known, seven)

    below' : get_or l 5 0 - b'0' < length ctx.ctx_len
    below' = ground (arith, known, seven')
