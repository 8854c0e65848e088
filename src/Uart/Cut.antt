-- ===== src/Uart/Cut.antt =====
-- `remove_buf_substr` cuts out what it is told to, and what a message that stays in the buffer,
-- or is too long for its own, comes to.
use lorawanatd_canarin.Base.{
  ℕ, ◌+◌, ◌≡◌, refl, ap, ◌∙◌, true, ◌++◌, Bytes, append_assoc, arith, NoNul, c_string-whole,
  c_prefix, strncpy-whole, c_prefix-all, length, take, drop, take-length-append, length-append,
  drop-length-append,
}
use lorawanatd_canarin.Util.Contains.{is_buffer_contains, OccursIn, is_buffer_contains_iff}
use lorawanatd_canarin.State.{Lw}
use lorawanatd_canarin.Uart.Async.{cut_out, set_uart_buf, run_async_has_more_tx, more_tx_text}
use lorawanatd_canarin.Push.{push_more_tx}

drop-append : (a b c : Bytes) → drop (length a + length b) (a ++ (b ++ c)) ≡ c
drop-append a b c = rw⁻¹ (length-append a b, append_assoc a b c) (drop-length-append (a ++ b) c)

take-exact : (s t : Bytes) (n : ℕ) → n ≡ length s → take n (s ++ t) ≡ s
take-exact s t n e = rw e (take-length-append s t)

-- A message is cut out of the buffer of the UART, and what stands before and behind it stays, if
-- that holds no NUL.
pub cut_out_lem :
    (before msg after : Bytes)
    → NoNul before
    → NoNul after
    → cut_out (before ++ (msg ++ after)) (length before) (length before + length msg)
      ≡ before ++ after
unfolding cut_out
cut_out_lem before msg after hb ha =
    rw
      (
        strncpy-whole before (msg ++ after) hb,
        drop-append before msg after,
        c_string-whole before hb,
        c_string-whole after ha,
      )
      (take-exact (before ++ after) _ _ (
        omega (
          arith,
          length-append before (msg ++ after),
          length-append msg after,
          length-append before after,
        )))

OccursIn-append : (s t u : Bytes) → OccursIn s t → OccursIn s (t ++ u)
OccursIn-append s t u (pre, post, e) = (
  pre,
  post ++ u,
  rw e (append_assoc pre (s ++ post) u ∙ ap (λ r. pre ++ r) (append_assoc s post u)),
)

-- The text by which the board says that it has more to send stays in the buffer of the UART: with
-- whatever bytes that arrive behind it the push clients are told once more.
run_async_has_more_tx-again :
    (lw : Lw) (buf more : Bytes)
    → OccursIn more_tx_text buf
    → NoNul (buf ++ more)
    → run_async_has_more_tx (length (buf ++ more)) (set_uart_buf (buf ++ more) lw)
      ≡ push_more_tx (set_uart_buf (buf ++ more) lw)
unfolding run_async_has_more_tx
run_async_has_more_tx-again lw buf more occurs clean = rw found refl
  where
    whole : c_prefix (length (buf ++ more)) (buf ++ more) ≡ buf ++ more
    whole = c_prefix-all (length (buf ++ more)) (buf ++ more) clean (omega arith)

    found : is_buffer_contains (buf ++ more) (length (buf ++ more)) more_tx_text ≡ true
    found =
        (is_buffer_contains_iff (buf ++ more) (length (buf ++ more)) more_tx_text).1
          (rw whole (OccursIn-append more_tx_text buf more occurs))
