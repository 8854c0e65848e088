-- ===== src/Http/ReadOrder.antt =====
-- `on_read_http` only adds new commands behind those that the client had.
use lorawanatd_canarin.Base.{
  ◌≡◌, refl, subst, sym, ◌∙◌, Bool, true, false, List, [], ◌∷◌, ◌++◌, arith, Outcome, Ensures,
  returns, Ensures->>=, Ensures-any, Bool-cases, inl, inr, length, if◌then◌else◌, ◌==◌, leb, codes,
  drop,
}
use lorawanatd_canarin.Command.Types.{Command, cmd_new}
use lorawanatd_canarin.State.{HttpClient, HttpRequest, http_client_request_complete}
use lorawanatd_canarin.Clients.{is_disconnected}
use lorawanatd_canarin.Push.{ReadResult, end_of_file, read_error, received}
use lorawanatd_canarin.Http.Request.{
  PhrParser, PhrHeader, PhrReturn, complete, malformed, incomplete, ParseReturn, return_ok,
  return_error, more, read_headers, read_header, parse_http_buf, conclude, store_request,
  content_length, is_named, set_content_len,
}
use lorawanatd_canarin.Http.Json.{Added, JsmnParser, add_cmd}
use lorawanatd_canarin.Http.Read.{
  accept_body, accept_action, on_complete_head, by_return, by_read, on_read_http, take_added,
  is_undefined, request_len,
}
use lorawanatd_canarin.Http.Added.{parse_json-Adds, add_cmd-adds}

-- The headers do not touch the commands.
read_header-cmdq :
    (h : PhrHeader) (client : HttpClient)
    → Ensures (λ (c : HttpClient). c.cmdq ≡ client.cmdq) (read_header h client)
unfolding read_header
read_header-cmdq h client = elim (Bool-cases (is_named (codes "Content-Length") h)) [
  | inl named ↦
      rw (named, read_header)
        (Ensures->>= {P = λ (c : HttpClient). c.cmdq ≡ client.cmdq}
          (Ensures->>= (Ensures-any (content_length h))
            λ n _. returns (set_content_len n client) refl)
          λ c e. returns _ (ground (arith, e)))
  | inr other ↦ rw (other, read_header) (returns _ (ground arith))
]

read_headers-cmdq :
    (hs : List PhrHeader) (client : HttpClient)
    → Ensures (λ (c : HttpClient). c.cmdq ≡ client.cmdq) (read_headers hs client)
unfolding read_headers
read_headers-cmdq [] client = returns client refl
read_headers-cmdq (h ∷ hs) client = Ensures->>= (read_header-cmdq h client) λ c e.
    subst (λ q. Ensures (λ (d : HttpClient). d.cmdq ≡ q) (read_headers hs c)) e
      (read_headers-cmdq hs c)

-- The client that `accept_body` works on.
abbrev pub with_body : HttpClient → HttpClient
with_body client = record client {
  state = http_client_request_complete;
  request = record request { content = drop request.header_len client.buf };
}
  where
    request : HttpRequest
    request = client.request

conclude-cmdq : (r : PhrReturn) (c : HttpClient) → (conclude r c).0.cmdq ≡ c.cmdq
conclude-cmdq (complete n) c = refl
conclude-cmdq malformed c = refl
conclude-cmdq incomplete c = refl

module _ (P : List Command → Type 0)
    (closed : (cmds : List Command) (c : Command)
      → P cmds
      → c.state ≡ cmd_new
      → P (cmds ++ c ∷ [])) where
  abbrev Keeps : Outcome HttpClient → Type 0
  Keeps = Ensures (λ (c : HttpClient). P c.cmdq)

  take_added-keeps : (a : Added) (client : HttpClient) → P a.cmds → P (take_added a client).cmdq
  take_added-keeps a client h = subst P (ground arith) h

  accept_body-Keeps :
      (jsmn : JsmnParser) (client : HttpClient) → P client.cmdq → Keeps (accept_body jsmn client)
  unfolding accept_body
  accept_body-Keeps jsmn client h = elim (Bool-cases client.is_json) [
    | inr plain ↦ rw (plain, accept_body) (returns _ h)
    | inl json ↦
        rw (json, accept_body)
          (Ensures->>= (parse_json-Adds P closed jsmn (with_body client) h)
            λ a kept. returns _ (take_added-keeps a (with_body client) kept))
  ]

  no_body-keeps :
      (b : Bool) (client : HttpClient)
      → P client.cmdq
      → P (if b then client else accept_action client).cmdq
  unfolding accept_action
  no_body-keeps true client h = h
  no_body-keeps false client h =
      take_added-keeps (add_cmd client) (record client { state = http_client_request_complete })
        (add_cmd-adds P closed client h)

  on_complete_head-Keeps :
      (jsmn : JsmnParser) (client : HttpClient)
      → P client.cmdq
      → Keeps (on_complete_head jsmn client)
  unfolding on_complete_head
  on_complete_head-Keeps jsmn client h = elim (Bool-cases (is_undefined client.action)) [
    | inl undefined ↦ rw (undefined, on_complete_head) (returns _ h)
    | inr known ↦ elim (Bool-cases (client.request.content_len == 0)) [
      | inl none' ↦
          rw (known, on_complete_head)
            (rw none' (returns _ (no_body-keeps client.is_json client h)))
      | inr some' ↦
          rw (known, on_complete_head)
            (rw some' (elim (Bool-cases (leb (request_len client) (length client.buf))) [
              | inl whole ↦ rw whole (accept_body-Keeps jsmn client h)
              | inr part ↦ rw part (returns _ h)
            ]))
    ]
  ]

  by_return-Keeps :
      (jsmn : JsmnParser) (r : ParseReturn) (client : HttpClient)
      → P client.cmdq
      → Keeps (by_return jsmn r client)
  by_return-Keeps jsmn return_ok client h = on_complete_head-Keeps jsmn client h
  by_return-Keeps jsmn return_error client h = returns _ h
  by_return-Keeps jsmn more client h = returns _ h

  by_read-Keeps :
      (phr : PhrParser) (jsmn : JsmnParser) (r : ReadResult) (client : HttpClient)
      → P client.cmdq
      → Keeps (by_read phr jsmn r client)
  unfolding parse_http_buf
  by_read-Keeps phr jsmn end_of_file client h = returns _ h
  by_read-Keeps phr jsmn read_error client h = returns _ h
  by_read-Keeps phr jsmn (received bytes) client h =
      let r = phr (client.buf ++ bytes) (length client.buf) in
      Ensures->>=
        (Ensures->>= (read_headers-cmdq r.headers (store_request r client))
          λ c e. returns (conclude r.pret c) (subst P (sym (conclude-cmdq r.pret c ∙ e)) h))
        λ a kept. by_return-Keeps jsmn a.1 (record a.0 { buf = client.buf ++ bytes }) kept

  pub on_read_http-Keeps :
      (phr : PhrParser) (jsmn : JsmnParser) (r : ReadResult) (client : HttpClient)
      → P client.cmdq
      → Keeps (on_read_http phr jsmn r client)
  unfolding on_read_http
  on_read_http-Keeps phr jsmn r client h = elim (Bool-cases (is_disconnected client.state)) [
    | inl gone ↦ rw (gone, on_read_http) (returns client h)
    | inr here ↦ rw (here, on_read_http) (by_read-Keeps phr jsmn r client h)
  ]
