-- ===== src/Tests/Board.antt =====
-- What goes to the board and comes from it, at concrete texts.
use lorawanatd_canarin.Base.{
  ◌≡◌, ◌++◌, ◌>>=◌, ◌↔◌, refl, true, [], ◌∷◌, some, none, codes, Bytes, ok, fault, arith, length,
  c_prefix, replicate,
}
use mathlib.Core.List.{Memᴰ}
use lorawanatd_canarin.Util.Contains.{is_buffer_contains, is_buffer_contains_iff, OccursIn}
use lorawanatd_canarin.Util.Trim.{trim, trim_lem, trim_blank, is_wspace}
use lorawanatd_canarin.Command.Types.{cmd_action}
use lorawanatd_canarin.Command.Table.{cmd_def_list}
use lorawanatd_canarin.Command.Make.{make_cmd, new_cmd}
use lorawanatd_canarin.Command.Lookup.{make_cmd_complete}
use lorawanatd_canarin.State.{
  Lw, Env, RecvMatch, push_client_active, push_client_disconnected, written,
}
use lorawanatd_canarin.Push.{push_recv}
use lorawanatd_canarin.Push.Delivery.{messages, push_recv-messages}
use lorawanatd_canarin.Uart.Tx.{set_tx_q}
use lorawanatd_canarin.Uart.Fifo.{write_all, quiet_rounds, written_texts, write_all-quiet_rounds}
use lorawanatd_canarin.Uart.Async.{cut_out, set_uart_buf}
use lorawanatd_canarin.Uart.Cut.{cut_out_lem}
use lorawanatd_canarin.Daemon.Steps.{blank}
use lorawanatd_canarin.Tests.Samples.{calm, status_def}

write_all-quiet_rounds_example :
    write_all (codes "AT+DR=5" ∷ codes "\r\n" ∷ []) (blank none)
      >>= (λ lw'. ok (quiet_rounds 2 (calm 0) lw'))
    ≡ ok (
        set_tx_q []
          (record (blank none) { effects = written_texts (codes "AT+DR=5" ∷ codes "\r\n" ∷ []) }))
write_all-quiet_rounds_example =
    write_all-quiet_rounds (calm 0) (blank none) (codes "AT+DR=5" ∷ codes "\r\n" ∷ []) refl
      ((ground arith, omega arith), ((ground arith, omega arith), tt)) (λ t. refl)

cut_out_example : cut_out (codes "ab" ++ (codes "+EVT:1" ++ codes "cd")) 2 8 ≡ codes "abcd"
cut_out_example =
    cut_out_lem (codes "ab") (codes "+EVT:1") (codes "cd") (ground arith) (ground arith)

-- A message whose first field has 255 bytes.
abbrev long_match : RecvMatch
long_match = record { rm_so = 0; rm_eo = 255; groups = (0, 255) ∷ [] }

abbrev matching : Env
matching = record {
  now = 0;
  regexec = λ text. some long_match;
  file_write = written;
  uart_opens = true;
  uart_takes = λ text. length text;
}

abbrev full_lw : Lw
full_lw = set_uart_buf (replicate 255 b'a') (blank none)

abbrev pushing : Lw
pushing = record (blank none) {
  push =
      record { state = push_client_active; fd = 4 }
      ∷ record { state = push_client_disconnected; fd = 5 }
      ∷ record { state = push_client_active; fd = 6 }
      ∷ [];
}

push_recv-messages_example :
    push_recv (codes "1,ff") pushing
    ≡ record pushing { effects = messages (codes "1,ff") (4 ∷ 6 ∷ []) }
push_recv-messages_example = push_recv-messages (codes "1,ff") pushing

is_buffer_contains_example :
    (is_buffer_contains (codes "+EVT:JOINED\r\n") 13 (codes "JOINED") ≡ true)
    ↔ OccursIn (codes "JOINED") (c_prefix 13 (codes "+EVT:JOINED\r\n"))
is_buffer_contains_example = is_buffer_contains_iff (codes "+EVT:JOINED\r\n") 13 (codes "JOINED")

trim_example : trim 4196 (codes "\r\n" ++ (codes "OK" ++ codes "\r\n")) ≡ ok (codes "OK")
unfolding is_wspace
trim_example =
    trim_lem 4196 (codes "\r\n") (codes "OK") (codes "\r\n") (refl, (refl, tt)) (refl, (refl, tt))
      (record { nonempty = omega arith; first = refl; last = refl }) (omega arith) (omega arith)
      (omega arith)

trim_blank_example : trim 4196 (codes "\r\n") ≡ fault
unfolding is_wspace
trim_blank_example =
    trim_blank 4196 (codes "\r\n") (refl, (refl, tt)) (omega arith) (omega arith) (omega arith)

abbrev status_text : Bytes
status_text = codes "status" ++ codes "\"]"

make_cmd_complete_example :
    make_cmd status_text 6 none 0 cmd_action ≡ some (new_cmd none 0 status_def)
unfolding cmd_def_list
make_cmd_complete_example =
    make_cmd_complete status_def (codes "\"]") none 0 (Memᴰ.tail (Memᴰ.tail (Memᴰ.head refl))) refl
