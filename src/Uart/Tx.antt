-- ===== src/Uart/Tx.antt =====
-- The queue of texts for the board: `uart_write`, `uart_dev_write` and `uart_reset`.
use lorawanatd_canarin.Base.{
  ℕ, List, [], ◌∷◌, ◌++◌, Bytes, strncpy, Outcome, ok, exited, in_bounds, ◌>>◌, ◌==◌, leb,
  if◌then◌else◌, length, take,
}
use lorawanatd_canarin.State.{Lw, Env, UartDef, emit, uart_written, uart_reopened, uart_tx_size}

-- `strncpy` into `char buf[1024]` of a new entry. The call returns `len`, never an error.
unfoldable pub uart_write : Bytes → ℕ → Lw → Outcome Lw
unfolding strncpy
uart_write buf len lw = do
  in_bounds (leb len uart_tx_size)
  ok (record lw { uart = record uart { tx_q = uart.tx_q ++ strncpy len buf ∷ [] } })
  where
    uart : UartDef
    uart = lw.uart

abbrev pub set_tx_q : List Bytes → Lw → Lw
set_tx_q q lw = record lw { uart = record uart { tx_q = q } }
  where
    uart : UartDef
    uart = lw.uart

-- The first entry is removed only if the device took all of it.
unfoldable pub uart_dev_write : Env → Lw → Lw
uart_dev_write env lw = elim lw.uart.tx_q [
  | [] ↦ lw
  | tx ∷ rest ↦
      let lw' = emit lw (uart_written (take (env.uart_takes tx) tx)) in
      if env.uart_takes tx == length tx then set_tx_q rest lw' else lw'
]

-- A UART that does not open again ends the process.
unfoldable pub uart_reset : Env → Lw → Outcome Lw
uart_reset env lw = if env.uart_opens then ok (emit lw uart_reopened) else exited
