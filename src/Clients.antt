-- ===== src/Clients.antt =====
-- The queue of HTTP clients: `create_http_client`, `free_http_client`, `http_client_write` and
-- `remove_disconnected_http_clients` of src/http.c.
pub mod Removal
use lorawanatd_canarin.Base.{
  ℕ, Bool, true, false, List, [], ◌∷◌, Bytes, codes, Outcome, ok, fault, ◌>>=◌, ◌==◌, if◌then◌else◌,
  suc,
}
use lorawanatd_canarin.State.{
  Lw, HttpClient, HttpClientState, emit, closed, http_written, http_undefined, no_request,
  http_client_active, http_client_disconnected,
}

abbrev pub http_error_500 : Bytes
http_error_500 =
    codes
      "HTTP/1.1 500 Internal Server Error\nContent-Type: application/json\n\n{\"status\":\"ERROR\"}"

-- A client with a fresh address.
unfoldable pub create_http_client : Lw → ℕ → HttpClient
create_http_client lw fd = record {
  id = lw.next_id;
  fd = fd;
  cmdq = [];
  buf = [];
  action = http_undefined;
  request = no_request;
  state = http_client_active;
  is_json = false;
  timed_out = false;
  error_resp = http_error_500;
  local = false;
  restore_context = false;
}

abbrev pub allocated : Lw → Lw
allocated lw = record lw { next_id = suc lw.next_id }

-- A short write is only logged.
abbrev pub http_client_write : HttpClient → Bytes → Lw → Lw
http_client_write client text lw = emit lw (http_written client.fd text)

-- `STAILQ_REMOVE` follows the queue to the client, and off its end where the client is not there.
unfoldable pub stailq_remove : ℕ → List HttpClient → Outcome (List HttpClient)
stailq_remove id [] = fault
stailq_remove id (c ∷ cs) = elim (c.id == id) [
  | true ↦ ok cs
  | false ↦ do cs' ← stailq_remove id cs; ok (c ∷ cs')
]

-- A local client has no event and no file descriptor.
abbrev pub close_client : HttpClient → Lw → Lw
close_client client lw = if client.local then lw else emit lw (closed client.fd)

unfoldable pub free_http_client : HttpClient → Lw → Outcome Lw
unfolding stailq_remove
free_http_client client lw = do
  rest ← stailq_remove client.id lw.http
  ok (record (close_client client lw) { http = rest })

abbrev pub is_disconnected : HttpClientState → Bool
is_disconnected http_client_disconnected = true
is_disconnected _ = false

-- The loop runs over the clients that were queued when it began.
unfoldable pub remove_disconnected_from : List HttpClient → Lw → Outcome Lw
unfolding free_http_client
remove_disconnected_from [] lw = ok lw
remove_disconnected_from (c ∷ cs) lw = do
  lw' ← if is_disconnected c.state then free_http_client c lw else ok lw
  remove_disconnected_from cs lw'

unfoldable pub remove_disconnected_http_clients : Lw → Outcome Lw
unfolding remove_disconnected_from
remove_disconnected_http_clients lw = remove_disconnected_from lw.http lw
