-- ===== src/Push.antt =====
-- Push clients, who are told of received messages: src/push.c and src/include/push.h.
pub mod Delivery
use lorawanatd_canarin.Base.{ℕ, Bool, true, false, List, [], ◌∷◌, ◌++◌, Bytes, codes, if◌then◌else◌}
use lorawanatd_canarin.State.{
  Lw, PushClient, PushClientState, emit, push_written, closed, push_client_active,
  push_client_disconnected,
}

abbrev pub is_active : PushClientState → Bool
is_active push_client_active = true
is_active push_client_disconnected = false

-- A short write is only logged.
abbrev pub push_write : PushClient → Bytes → Lw → Lw
push_write client text lw = emit lw (push_written client.fd text)

-- The three writes to each active client.
unfoldable pub push_recv_to : List PushClient → Bytes → Lw → Lw
push_recv_to [] buf lw = lw
push_recv_to (c ∷ cs) buf lw =
    let sent = push_write c (codes ">") (push_write c buf (push_write c (codes "<rx=") lw)) in
    push_recv_to cs buf (if is_active c.state then sent else lw)

unfoldable pub push_recv : Bytes → Lw → Lw
unfolding push_recv_to
push_recv buf lw = push_recv_to lw.push buf lw

unfoldable pub push_more_tx_to : List PushClient → Lw → Lw
push_more_tx_to [] lw = lw
push_more_tx_to (c ∷ cs) lw =
    push_more_tx_to cs (if is_active c.state then push_write c (codes "<moretx>") lw else lw)

unfoldable pub push_more_tx : Lw → Lw
unfolding push_more_tx_to
push_more_tx lw = push_more_tx_to lw.push lw

-- What `read` gives: the end of the stream, an error, or some bytes.
pub data ReadResult : Type 0 where
  end_of_file read_error : ReadResult
  received : Bytes → ReadResult

-- `on_read_push` of the client whose event fires; the bytes are not looked at.
unfoldable pub on_read_push : ReadResult → PushClient → PushClient
on_read_push end_of_file client =
    if is_active client.state then record client { state = push_client_disconnected } else client
on_read_push read_error client =
    if is_active client.state then record client { state = push_client_disconnected } else client
on_read_push (received bytes) client = client

-- `calloc` and the two assignments of `on_accept_push`, for a descriptor that `accept` returned.
unfoldable pub on_accept_push : ℕ → Lw → Lw
on_accept_push fd lw = record lw {
  push = lw.push ++ record { state = push_client_active; fd = fd } ∷ [];
}

-- `free_push_client` for the disconnected clients, the others keep their order.
unfoldable pub keep_connected : List PushClient → List PushClient
keep_connected [] = []
keep_connected (c ∷ cs) =
    let rest = keep_connected cs in if is_active c.state then c ∷ rest else rest

unfoldable pub close_disconnected : List PushClient → Lw → Lw
close_disconnected [] lw = lw
close_disconnected (c ∷ cs) lw =
    close_disconnected cs (if is_active c.state then lw else emit lw (closed c.fd))

unfoldable pub remove_disconnected_push_clients : Lw → Lw
unfolding keep_connected close_disconnected
remove_disconnected_push_clients lw = record (close_disconnected lw.push lw) {
  push = keep_connected lw.push;
}
