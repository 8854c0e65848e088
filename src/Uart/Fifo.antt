-- ===== src/Uart/Fifo.antt =====
-- The queue of texts for the board is first in, first out.
use lorawanatd_canarin.Base.{
  ℕ, zero, suc, ◌≡◌, ◌≤◌, refl, ap, ◌∙◌, append_assoc, append-nil, sym, subst, true, false, List,
  [], ◌∷◌, ◌++◌, Bytes, strncpy, Outcome, ok, ◌>>=◌, NoNul, strncpy-whole, All, arith, length, leb,
  take, ◌==◌, ==_refl, take-length,
}
use lorawanatd_canarin.State.{Lw, Env, Effect, uart_written, uart_tx_size}
use lorawanatd_canarin.Uart.Tx.{uart_write, uart_dev_write, set_tx_q}

-- The calls of `uart_write` for some texts.
unfoldable pub write_all : List Bytes → Lw → Outcome Lw
write_all [] lw = ok lw
write_all (t ∷ ts) lw = do lw' ← uart_write t (length t) lw; write_all ts lw'

-- Rounds in which the board sends nothing.
unfoldable pub quiet_rounds : ℕ → Env → Lw → Lw
quiet_rounds zero env lw = lw
quiet_rounds (suc n) env lw = quiet_rounds n env (uart_dev_write env lw)

abbrev pub written_texts : List Bytes → List Effect
written_texts [] = []
written_texts (t ∷ ts) = uart_written t ∷ written_texts ts

-- A text with no NUL that fits into an entry of the queue.
abbrev pub FitsTx : Bytes → Type 0
FitsTx t = NoNul t × (length t ≤ uart_tx_size)

pub uart_write-appends :
    (t : Bytes) (lw : Lw)
    → FitsTx t
    → uart_write t (length t) lw ≡ ok (set_tx_q (lw.uart.tx_q ++ t ∷ []) lw)
unfolding uart_write
uart_write-appends t lw (clean, fits) =
    let e : leb (length t) uart_tx_size ≡ true = ground arith in
    rw e (
      ap (λ (u : Bytes). ok (set_tx_q (lw.uart.tx_q ++ u ∷ []) lw))
        (subst (λ u. strncpy (length t) u ≡ t) (append-nil t) (strncpy-whole t [] clean)))

write_all-appends :
    (ts : List Bytes) (lw : Lw)
    → All FitsTx ts
    → write_all ts lw ≡ ok (set_tx_q (lw.uart.tx_q ++ ts) lw)
unfolding write_all
write_all-appends [] lw h =
    ap (λ (q : List Bytes). ok (set_tx_q q lw)) (sym (append-nil lw.uart.tx_q))
write_all-appends (t ∷ ts) lw h = rw (uart_write-appends t lw h.0) (
    write_all-appends ts (set_tx_q (lw.uart.tx_q ++ t ∷ []) lw) h.1
    ∙ ap (λ (q : List Bytes). ok (set_tx_q q lw)) (append_assoc lw.uart.tx_q (t ∷ []) ts))

-- One round with a device that takes all of the first text.
pub dev_write-first :
    (env : Env) (lw : Lw) (t : Bytes) (ts : List Bytes)
    → env.uart_takes t ≡ length t
    → uart_dev_write env (set_tx_q (t ∷ ts) lw)
      ≡ set_tx_q ts (record lw { effects = lw.effects ++ uart_written t ∷ [] })
unfolding uart_dev_write
dev_write-first env lw t ts takes =
    rw takes (rw (==_refl (length t), take-length t (length t) (omega arith)))

quiet_rounds-drain :
    (env : Env) (lw : Lw) (ts : List Bytes)
    → ((t : Bytes) → env.uart_takes t ≡ length t)
    → quiet_rounds (length ts) env (set_tx_q ts lw)
      ≡ set_tx_q [] (record lw { effects = lw.effects ++ written_texts ts })
unfolding quiet_rounds
quiet_rounds-drain env lw [] takes =
    ap (λ (es : List Effect). set_tx_q [] (record lw { effects = es }))
      (sym (append-nil lw.effects))
quiet_rounds-drain env lw (t ∷ ts) takes =
    ap (quiet_rounds (length ts) env) (dev_write-first env lw t ts (takes t))
    ∙ quiet_rounds-drain env (record lw { effects = lw.effects ++ uart_written t ∷ [] }) ts takes
    ∙ ap (λ (es : List Effect). set_tx_q [] (record lw { effects = es }))
        (append_assoc lw.effects (uart_written t ∷ []) (written_texts ts))

-- Texts that are queued for the board, behind none, come out whole and in their order: one quiet
-- round for each leaves the queue empty, with a device that takes every text whole. The texts
-- hold no NUL and have at most 1024 bytes.
pub write_all-quiet_rounds :
    (env : Env) (lw : Lw) (ts : List Bytes)
    → lw.uart.tx_q ≡ []
    → All FitsTx ts
    → ((t : Bytes) → env.uart_takes t ≡ length t)
    → write_all ts lw >>= (λ lw'. ok (quiet_rounds (length ts) env lw'))
      ≡ ok (set_tx_q [] (record lw { effects = lw.effects ++ written_texts ts }))
write_all-quiet_rounds env lw ts empty fits takes =
    rw (write_all-appends ts lw fits)
      (rw empty (ap (λ (l : Lw). ok l) (quiet_rounds-drain env lw ts takes)))

dev_write-short :
    (env : Env) (lw : Lw) (t : Bytes) (ts : List Bytes)
    → (env.uart_takes t == length t) ≡ false
    → uart_dev_write env (set_tx_q (t ∷ ts) lw)
      ≡ set_tx_q
          (t ∷ ts)
          (record lw { effects = lw.effects ++ uart_written (take (env.uart_takes t) t) ∷ [] })
unfolding uart_dev_write
dev_write-short env lw t ts short = rw short refl

-- A text that the device takes only a part of is begun again from its first byte in the next
-- quiet round, so that the part that was taken reaches the board twice.
short_write-repeats :
    (env env' : Env) (lw : Lw) (t : Bytes) (ts : List Bytes)
    → (env.uart_takes t == length t) ≡ false
    → env'.uart_takes t ≡ length t
    → uart_dev_write env' (uart_dev_write env (set_tx_q (t ∷ ts) lw))
      ≡ set_tx_q ts (record lw {
        effects = lw.effects ++ (uart_written (take (env.uart_takes t) t) ∷ uart_written t ∷ []);
      })
short_write-repeats env env' lw t ts short takes = rw (dev_write-short env lw t ts short) (
    dev_write-first env'
      (record lw { effects = lw.effects ++ uart_written (take (env.uart_takes t) t) ∷ [] }) t ts
      takes
    ∙ ap (λ (es : List Effect). set_tx_q ts (record lw { effects = es }))
        (append_assoc lw.effects (uart_written (take (env.uart_takes t) t) ∷ [])
          (uart_written t ∷ [])))
