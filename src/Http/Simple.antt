-- ===== src/Http/Simple.antt =====
-- The requests with no body, from the bytes that are read to the command that they add.
use lorawanatd_canarin.Base.{
  ℕ, ◌≡◌, refl, ap, ◌∙◌, true, false, ◌&&◌, List, [], ◌∷◌, ◌++◌, some, Bytes, codes, ok, arith,
  length, take, starts_with, if◌then◌else◌, if-false, ◌==◌, strncmp_eq, All,
}
use lorawanatd_canarin.Command.Types.{Command}
use lorawanatd_canarin.Command.Make.{make_cmd, find_def, is_wanted}
use lorawanatd_canarin.Command.Table.{cmd_def_list}
use lorawanatd_canarin.State.{
  HttpClient, HttpRequest, HttpAction, http_undefined, http_reset, http_hard_reset, http_status,
  http_join, http_force_update, http_client_request_complete,
}
use lorawanatd_canarin.Clients.{is_disconnected}
use lorawanatd_canarin.Push.{received}
use lorawanatd_canarin.Http.Route.{Route, routes, first_match, get_action_from_http_request}
use lorawanatd_canarin.Http.Prefix.{IsText, matches-starts_with}
use lorawanatd_canarin.Http.Request.{
  PhrParser, PhrHeader, complete, read_headers, store_request, parse_http_buf, conclude,
  complete_request, is_named, read_header,
}
use lorawanatd_canarin.Http.Json.{JsmnParser, action_cmd, add_cmd}
use lorawanatd_canarin.Http.Read.{on_read_http, on_complete_head, accept_action, is_undefined}

-- The URLs of the README that take no body.
pub data Url : Type 0 where
  url_reset url_hard_reset url_status url_join url_force_update : Url

abbrev pub path_of : Url → Bytes
path_of url_reset = codes "/reset"
path_of url_hard_reset = codes "/hard_reset"
path_of url_status = codes "/status"
path_of url_join = codes "/join"
path_of url_force_update = codes "/force_update"

-- The AT command that each leads to, and the seconds that it may take.
abbrev pub at_of : Url → Bytes × ℕ
at_of url_reset = (codes "ATZ", 10)
at_of url_hard_reset = (codes "ATZ", 10)
at_of url_status = (codes "AT", 15)
at_of url_join = (codes "AT+JOIN", 60)
at_of url_force_update = (codes "FORCE_UPDATE", 1)

abbrev action_of : Url → HttpAction
action_of url_reset = http_reset
action_of url_hard_reset = http_hard_reset
action_of url_status = http_status
action_of url_join = http_join
action_of url_force_update = http_force_update

-- The routes by the two texts that were sent.
unfoldable pub first_begins : List Route → Bytes → Bytes → HttpAction
first_begins [] m p = http_undefined
first_begins (r ∷ rs) m p =
    if starts_with m r.method && starts_with p r.path then r.action else first_begins rs m p

pub first_match-begins :
    (rs : List Route) (r : HttpRequest)
    → IsText r
    → first_match rs r ≡ first_begins rs (take r.method_len r.method) (take r.path_len r.path)
unfolding first_match first_begins
first_match-begins [] r text = refl
first_match-begins (route ∷ rs) r text =
    rw (matches-starts_with route r text, first_match-begins rs r text) refl

first_begins-action : (u : Url) → first_begins routes (codes "GET") (path_of u) ≡ action_of u
unfolding first_begins starts_with
first_begins-action url_reset = refl
first_begins-action url_hard_reset = refl
first_begins-action url_status = refl
first_begins-action url_join = refl
first_begins-action url_force_update = refl

action_cmd-at :
    (u : Url)
    → (cmd : Command) × (action_cmd (action_of u) ≡ some cmd)
      × (cmd.def.cmd ≡ (at_of u).0)
      × (cmd.timeout ≡ (at_of u).1)
unfolding make_cmd find_def is_wanted cmd_def_list strncmp_eq
action_cmd-at url_reset = (_, refl, refl, refl)
action_cmd-at url_hard_reset = (_, refl, refl, refl)
action_cmd-at url_status = (_, refl, refl, refl)
action_cmd-at url_join = (_, refl, refl, refl)
action_cmd-at url_force_update = (_, refl, refl, refl)

is_undefined-action_of : (u : Url) → is_undefined (action_of u) ≡ false
is_undefined-action_of url_reset = refl
is_undefined-action_of url_hard_reset = refl
is_undefined-action_of url_status = refl
is_undefined-action_of url_join = refl
is_undefined-action_of url_force_update = refl

-- A header that the daemon does not look at.
abbrev pub IsPlain : PhrHeader → Type 0
IsPlain h =
    (is_named (codes "Content-Length") h ≡ false) × (is_named (codes "Content-Type") h ≡ false)

read_headers-plain :
    (hs : List PhrHeader) (client : HttpClient)
    → All IsPlain hs
    → read_headers hs client ≡ ok client
unfolding read_headers read_header
read_headers-plain [] client h = refl
read_headers-plain (g ∷ hs) client h = rw (h.0.0, h.0.1) (read_headers-plain hs client h.1)

-- The end of the head of a request with no body.
on_complete_head-url :
    (jsmn : JsmnParser) (c : HttpClient) (u : Url) (cmd : Command)
    → c.action ≡ action_of u
    → c.request.content_len ≡ 0
    → c.is_json ≡ false
    → action_cmd (action_of u) ≡ some cmd
    → (c' : HttpClient) × (on_complete_head jsmn c ≡ ok c')
      × (c'.state ≡ http_client_request_complete)
      × (c'.cmdq ≡ c.cmdq ++ cmd ∷ [])
unfolding on_complete_head accept_action add_cmd
on_complete_head-url jsmn c u cmd act empty plain made = (
  record c { state = http_client_request_complete; cmdq = c.cmdq ++ cmd ∷ [] },
  rw (known, on_complete_head)
      (rw none'
        (ap (λ (d : HttpClient). ok d) (if-false c (accept_action c) c.is_json plain ∙ accepted))),
  refl,
  refl,
)
  where
    known : is_undefined c.action ≡ false
    known = ap is_undefined act ∙ is_undefined-action_of u

    none' : (c.request.content_len == 0) ≡ true
    none' = ground arith

    one : action_cmd c.action ≡ some cmd
    one = ap action_cmd act ∙ made

    accepted :
        accept_action c
        ≡ record c { state = http_client_request_complete; cmdq = c.cmdq ++ cmd ∷ [] }
    accepted = unfold accept_action add_cmd in rw one refl

-- The request that the parser stores in the client.
abbrev sent : PhrParser → HttpClient → Bytes → HttpClient
sent phr client bytes = store_request (phr (client.buf ++ bytes) (length client.buf)) client

-- A GET request for one of the five URLs without a body, whole once some bytes are read, makes its
-- client's request complete and adds one command behind the client's: the AT command of the URL,
-- with its seconds. The client is connected and has met no Content-Length and no JSON before, and
-- the headers name neither a Content-Length nor a Content-Type.
pub on_read_http-url :
    (phr : PhrParser) (jsmn : JsmnParser) (u : Url) (client : HttpClient) (bytes : Bytes) (n : ℕ)
    → is_disconnected client.state ≡ false
    → client.request.content_len ≡ 0
    → client.is_json ≡ false
    → (phr (client.buf ++ bytes) (length client.buf)).pret ≡ complete n
    → All IsPlain (phr (client.buf ++ bytes) (length client.buf)).headers
    → IsText (sent phr client bytes).request
    → take (sent phr client bytes).request.method_len (sent phr client bytes).request.method
      ≡ codes "GET"
    → take (sent phr client bytes).request.path_len (sent phr client bytes).request.path ≡ path_of u
    → (client' : HttpClient) × (cmd : Command) × (on_read_http phr jsmn (received bytes) client
        ≡ ok client')
      × (client'.state ≡ http_client_request_complete)
      × (client'.cmdq ≡ client.cmdq ++ cmd ∷ [])
      × (cmd.def.cmd ≡ (at_of u).0)
      × (cmd.timeout ≡ (at_of u).1)
unfolding on_read_http
on_read_http-url phr jsmn u client bytes n here empty plain pret headers text method path =
    let (cmd, made, at, seconds) = action_cmd-at u in
    let c = record (complete_request n (sent phr client bytes)) { buf = client.buf ++ bytes } in
    let (client', done, state, cmdq) = on_complete_head-url jsmn c u cmd action empty plain made in
    (client', cmd, rw (here, on_read_http) (rw parsed done), state, cmdq, at, seconds)
  where
    parsed : parse_http_buf phr client bytes ≡ ok (conclude (complete n) (sent phr client bytes))
    parsed =
        unfold parse_http_buf in
        rw (read_headers-plain _ (sent phr client bytes) headers) (rw pret refl)

    action : (complete_request n (sent phr client bytes)).action ≡ action_of u
    action =
        unfold get_action_from_http_request in
        first_match-begins routes (record request { header_len = n })
          (record {
            method_in = text.method_in;
            method_clean = text.method_clean;
            path_in = text.path_in;
            path_clean = text.path_clean;
          })
        ∙ rw (method, path) (first_begins-action u)
      where
        request : HttpRequest
        request = (sent phr client bytes).request
