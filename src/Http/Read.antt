-- ===== src/Http/Read.antt =====
-- `on_read_http` and `on_accept_http`.
use lorawanatd_canarin.Base.{
  ℕ, ◌+◌, ◌%◌, ◌^◌, Bool, true, false, [], ◌∷◌, ◌++◌, Bytes, codes, Outcome, ok, ◌>>=◌, ◌==◌, leb,
  if◌then◌else◌, length, drop,
}
use lorawanatd_canarin.State.{
  Lw, HttpClient, HttpAction, HttpRequest, http_undefined, http_client_error,
  http_client_disconnected, http_client_request_complete,
}
use lorawanatd_canarin.Clients.{create_http_client, allocated, is_disconnected, http_error_500}
use lorawanatd_canarin.Push.{ReadResult, end_of_file, read_error, received}
use lorawanatd_canarin.Http.Request.{
  PhrParser, ParseReturn, return_ok, return_error, more, parse_http_buf,
}
use lorawanatd_canarin.Http.Json.{JsmnParser, Added, add_cmd, parse_json_content_add_cmd}

abbrev pub http_error_401 : Bytes
http_error_401 =
    codes "HTTP/1.1 401 Not Found\nContent-Type: application/json\n\n{\"status\":\"ERROR\"}"

abbrev pub is_undefined : HttpAction → Bool
is_undefined http_undefined = true
is_undefined _ = false

abbrev pub fail : Bytes → HttpClient → HttpClient
fail resp client = record client { error_resp = resp; state = http_client_error }

-- The commands are kept also where the function failed behind some of them.
abbrev pub take_added : Added → HttpClient → HttpClient
take_added a client =
    let client' = record client { cmdq = a.cmds } in
    if a.accepted then client' else fail http_error_500 client'

-- The body is there: its commands, if it is JSON.
unfoldable pub accept_body : JsmnParser → HttpClient → Outcome HttpClient
unfolding parse_json_content_add_cmd
accept_body jsmn client = do
  let client' = record client {
    state = http_client_request_complete;
    request = record request { content = drop request.header_len client.buf };
  }
  elim client.is_json [
    | false ↦ ok client'
    | true ↦ do a ← parse_json_content_add_cmd jsmn client'; ok (take_added a client')
  ]
  where
    request : HttpRequest
    request = client.request

-- A request with no body that is not JSON.
unfoldable pub accept_action : HttpClient → HttpClient
unfolding add_cmd
accept_action client =
    take_added (add_cmd client) (record client { state = http_client_request_complete })

-- The sum of two `size_t`.
abbrev pub request_len : HttpClient → ℕ
request_len client = (client.request.header_len + client.request.content_len) % 2 ^ 64

-- The head is complete. A JSON request that announces no body waits for ever.
unfoldable pub on_complete_head : JsmnParser → HttpClient → Outcome HttpClient
unfolding accept_body accept_action
on_complete_head jsmn client = elim (is_undefined client.action) [
  | true ↦ ok (fail http_error_401 client)
  | false ↦ elim (client.request.content_len == 0) [
    | true ↦ ok (if client.is_json then client else accept_action client)
    | false ↦ elim (leb (request_len client) (length client.buf)) [
      | true ↦ accept_body jsmn client
      | false ↦ ok client
    ]
  ]
]

abbrev pub by_return : JsmnParser → ParseReturn → HttpClient → Outcome HttpClient
by_return jsmn return_ok client = on_complete_head jsmn client
by_return jsmn return_error client = ok (record client { state = http_client_error })
by_return jsmn more client = ok client

abbrev pub by_read : PhrParser → JsmnParser → ReadResult → HttpClient → Outcome HttpClient
by_read phr jsmn end_of_file client = ok (record client { state = http_client_disconnected })
by_read phr jsmn read_error client = ok (record client { state = http_client_disconnected })
by_read phr jsmn (received bytes) client = do
  (client', ret) ← parse_http_buf phr client bytes
  by_return jsmn ret (record client' { buf = client.buf ++ bytes })

-- `read` is given the room that is left in the buffer, so it never returns more bytes.
unfoldable pub on_read_http : PhrParser → JsmnParser → ReadResult → HttpClient → Outcome HttpClient
unfolding parse_http_buf on_complete_head
on_read_http phr jsmn result client = elim (is_disconnected client.state) [
  | true ↦ ok client
  | false ↦ by_read phr jsmn result client
]

-- For a descriptor that `accept` returned.
unfoldable pub on_accept_http : ℕ → Lw → Lw
unfolding create_http_client
on_accept_http fd lw = record (allocated lw) { http = lw.http ++ create_http_client lw fd ∷ [] }
