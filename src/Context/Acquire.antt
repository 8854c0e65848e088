-- ===== src/Context/Acquire.antt =====
-- `context_acquired`: the response to `AT+CTX=?` is taken apart line by line.
use lorawanatd_canarin.Base.{
  ℕ, zero, suc, ◌+◌, ◌-◌, Bool, true, false, ◌&&◌, [], ◌∷◌, Option, none, some, Bytes, codes,
  c_string, strncmp_eq, starts_with, Outcome, ok, unfinished, in_bounds, ◌>>=◌, ◌>>◌, ltb, leb,
  if◌then◌else◌, length, get_or, set, drop,
}
use lorawanatd_canarin.LwanContext.{LwanContext}
use lorawanatd_canarin.Command.Types.{Command}
use lorawanatd_canarin.State.{Lw, Env}
use lorawanatd_canarin.Context.File.{write_context}

abbrev pub newline : Bytes
newline = codes "\r\n"

-- `strstr(start, "\r\n")`: the line in front of the first "\r\n" and the text behind it.
abbrev extend_line : ℕ → Option (Bytes × Bytes) → Option (Bytes × Bytes)
extend_line c none = none
extend_line c (some (line, rest)) = some (c ∷ line, rest)

unfoldable pub split_line : Bytes → Option (Bytes × Bytes)
unfolding starts_with
split_line [] = none
split_line (c ∷ s) =
    if starts_with newline (c ∷ s) then some ([], drop 1 s) else extend_line c (split_line s)

-- `LORAMAC_NVMCTXMODULE_CONFIRM_QUEUE`
abbrev pub confirm_queue : ℕ
confirm_queue = 6

abbrev pub ctx_size : ℕ
ctx_size = 1024

abbrev pub ctx_prefix : Bytes
ctx_prefix = codes "+CTX="

-- The type is `ctx[5] - '0'` as an unsigned number.
abbrev pub is_context_type : ℕ → Bool
is_context_type digit = leb b'0' digit && leb digit (b'0' + confirm_queue)

abbrev pub store_context : Bytes → LwanContext → LwanContext
store_context line ctx = record ctx {
  ctx = set ctx.ctx (get_or line 5 0 - b'0') line;
  ctx_len = set ctx.ctx_len (get_or line 5 0 - b'0') (length line);
}

-- The loop on fuel. `buf` is the whole C string, `pos` is `start - cmd->buf`. A line with an
-- unknown type is met again at once: `continue` skips the step to the next line.
unfoldable pub acquire_loop : ℕ → ℕ → ℕ → Bytes → LwanContext → Outcome LwanContext
unfolding split_line strncmp_eq
acquire_loop zero buf_len pos start ctx = unfinished
acquire_loop (suc fuel) buf_len pos start ctx = elim (split_line start) [
  | none ↦ ok ctx
  | some (line, rest) ↦ do
    in_bounds (ltb (length line) ctx_size)
    elim (strncmp_eq line ctx_prefix 5) [
      | false ↦ elim (leb (pos + length line + 2) buf_len) [
        | true ↦ acquire_loop fuel buf_len (pos + length line + 2) rest ctx
        | false ↦ ok ctx
      ]
      | true ↦ elim (is_context_type (get_or line 5 0)) [
        | false ↦ elim (leb pos buf_len) [
          | true ↦ acquire_loop fuel buf_len pos start ctx
          | false ↦ ok ctx
        ]
        | true ↦ elim (leb (pos + length line + 2) buf_len) [
          | true ↦ acquire_loop fuel buf_len (pos + length line + 2) rest (store_context line ctx)
          | false ↦ ok (store_context line ctx)
        ]
      ]
    ]
]

-- Each round takes at least the two bytes of a newline, so one round for each byte is enough.
unfoldable pub context_acquired : Env → Command → Lw → Outcome Lw
unfolding c_string acquire_loop
context_acquired env cmd lw = do
  ctx ← acquire_loop (suc (length cmd.buf)) (length cmd.buf) 0 (c_string cmd.buf) lw.lwan_ctx
  ok (write_context env (record lw { lwan_ctx = ctx }))
