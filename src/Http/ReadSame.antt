-- ===== src/Http/ReadSame.antt =====
-- `on_read_http` leaves the client at its address, local or not.
use lorawanatd_canarin.Base.{
  ℕ, ◌≡◌, refl, subst, ◌∙◌, Bool, true, false, List, [], ◌∷◌, ◌++◌, arith, Outcome, Ensures,
  returns, Ensures->>=, Ensures-any, Bool-cases, inl, inr, length, if◌then◌else◌, ◌==◌, leb, codes,
}
use lorawanatd_canarin.State.{HttpClient, http_client_request_complete}
use lorawanatd_canarin.Clients.{is_disconnected}
use lorawanatd_canarin.Push.{ReadResult, end_of_file, read_error, received}
use lorawanatd_canarin.Http.Request.{
  PhrParser, PhrHeader, PhrReturn, complete, malformed, incomplete, ParseReturn, return_ok,
  return_error, more, read_headers, read_header, parse_http_buf, conclude, store_request,
  content_length, is_named, set_content_len,
}
use lorawanatd_canarin.Http.Json.{Added, JsmnParser, add_cmd, parse_json_content_add_cmd}
use lorawanatd_canarin.Http.ReadOrder.{with_body}
use lorawanatd_canarin.Http.Read.{
  accept_body, accept_action, on_complete_head, by_return, by_read, on_read_http, take_added,
  is_undefined, request_len,
}

abbrev place : HttpClient → ℕ × Bool
place c = (c.id, c.local)

abbrev Stays : HttpClient → Outcome HttpClient → Type 0
Stays client = Ensures (λ (c : HttpClient). place c ≡ place client)

read_header-Stays : (h : PhrHeader) (client : HttpClient) → Stays client (read_header h client)
unfolding read_header
read_header-Stays h client = elim (Bool-cases (is_named (codes "Content-Length") h)) [
  | inl named ↦
      rw (named, read_header)
        (Ensures->>= {P = λ (c : HttpClient). place c ≡ place client}
          (Ensures->>= (Ensures-any (content_length h))
            λ n _. returns (set_content_len n client) refl)
          λ c e. returns _ (ground (arith, e)))
  | inr other ↦ rw (other, read_header) (returns _ (ground arith))
]

read_headers-Stays :
    (hs : List PhrHeader) (client : HttpClient) → Stays client (read_headers hs client)
unfolding read_headers
read_headers-Stays [] client = returns client refl
read_headers-Stays (h ∷ hs) client = Ensures->>= (read_header-Stays h client) λ c e.
    subst (λ q. Ensures (λ (d : HttpClient). place d ≡ q) (read_headers hs c)) e
      (read_headers-Stays hs c)

conclude-place : (r : PhrReturn) (c : HttpClient) → place (conclude r c).0 ≡ place c
conclude-place (complete n) c = refl
conclude-place malformed c = refl
conclude-place incomplete c = refl

take_added-place : (a : Added) (client : HttpClient) → place (take_added a client) ≡ place client
take_added-place a client = ground arith

accept_body-Stays :
    (jsmn : JsmnParser) (client : HttpClient) → Stays client (accept_body jsmn client)
unfolding accept_body
accept_body-Stays jsmn client = elim (Bool-cases client.is_json) [
  | inr plain ↦ rw (plain, accept_body) (returns _ refl)
  | inl json ↦
      rw (json, accept_body)
        (Ensures->>= (Ensures-any (parse_json_content_add_cmd jsmn (with_body client)))
          λ a _. returns _ (take_added-place a (with_body client)))
]

no_body-place :
    (b : Bool) (client : HttpClient)
    → place (if b then client else accept_action client) ≡ place client
unfolding accept_action
no_body-place true client = refl
no_body-place false client =
    take_added-place (add_cmd client) (record client { state = http_client_request_complete })

on_complete_head-Stays :
    (jsmn : JsmnParser) (client : HttpClient) → Stays client (on_complete_head jsmn client)
unfolding on_complete_head
on_complete_head-Stays jsmn client = elim (Bool-cases (is_undefined client.action)) [
  | inl undefined ↦ rw (undefined, on_complete_head) (returns _ refl)
  | inr known ↦ elim (Bool-cases (client.request.content_len == 0)) [
    | inl none' ↦
        rw (known, on_complete_head) (rw none' (returns _ (no_body-place client.is_json client)))
    | inr some' ↦
        rw (known, on_complete_head)
          (rw some' (elim (Bool-cases (leb (request_len client) (length client.buf))) [
            | inl whole ↦ rw whole (accept_body-Stays jsmn client)
            | inr part ↦ rw part (returns _ refl)
          ]))
  ]
]

by_return-Stays :
    (jsmn : JsmnParser) (r : ParseReturn) (client : HttpClient)
    → Stays client (by_return jsmn r client)
by_return-Stays jsmn return_ok client = on_complete_head-Stays jsmn client
by_return-Stays jsmn return_error client = returns _ refl
by_return-Stays jsmn more client = returns _ refl

by_read-Stays :
    (phr : PhrParser) (jsmn : JsmnParser) (r : ReadResult) (client : HttpClient)
    → Stays client (by_read phr jsmn r client)
unfolding parse_http_buf
by_read-Stays phr jsmn end_of_file client = returns _ refl
by_read-Stays phr jsmn read_error client = returns _ refl
by_read-Stays phr jsmn (received bytes) client =
    let r = phr (client.buf ++ bytes) (length client.buf) in
    Ensures->>= {P = λ (a : HttpClient × ParseReturn). place a.0 ≡ place client}
      (Ensures->>= (read_headers-Stays r.headers (store_request r client))
        λ c e. returns (conclude r.pret c) (conclude-place r.pret c ∙ e))
      λ a e.
        subst
          (λ q.
            Ensures (λ (d : HttpClient). place d ≡ q)
              (by_return jsmn a.1 (record a.0 { buf = client.buf ++ bytes })))
          e (by_return-Stays jsmn a.1 (record a.0 { buf = client.buf ++ bytes }))

pub on_read_http-Stays :
    (phr : PhrParser) (jsmn : JsmnParser) (r : ReadResult) (client : HttpClient)
    → Ensures (λ (c : HttpClient). place c ≡ place client) (on_read_http phr jsmn r client)
unfolding on_read_http
on_read_http-Stays phr jsmn r client = elim (Bool-cases (is_disconnected client.state)) [
  | inl gone ↦ rw (gone, on_read_http) (returns client refl)
  | inr here ↦ rw (here, on_read_http) (by_read-Stays phr jsmn r client)
]
