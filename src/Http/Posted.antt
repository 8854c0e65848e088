-- ===== src/Http/Posted.antt =====
-- A POST request with a JSON body, from the bytes that are read to the commands that it adds.
use lorawanatd_canarin.Base.{
  ℕ, ◌+◌, ◌≡◌, ◌≤◌, ◌<◌, ◌^◌, refl, ap, sym, ◌∙◌, subst, Bool, true, false, Outcome, List, ◌∷◌,
  ◌++◌, some, Bytes, codes, ok, >>=-ok, arith, length, take, drop, starts_with, ◌==◌, leb, print_u,
  All,
}
use lorawanatd_canarin.Command.Types.{Command}
use lorawanatd_canarin.State.{
  HttpClient, HttpRequest, HttpAction, http_get_config, http_set_config,
  http_client_request_complete, http_buf_size,
}
use lorawanatd_canarin.Clients.{is_disconnected}
use lorawanatd_canarin.Push.{received}
use lorawanatd_canarin.Http.Route.{routes, get_action_from_http_request}
use lorawanatd_canarin.Http.Prefix.{IsText}
use lorawanatd_canarin.Http.Request.{
  PhrParser, PhrHeader, complete, store_request, parse_http_buf, conclude, complete_request,
  tmp_size,
}
use lorawanatd_canarin.Http.Json.{
  JsmnParser, JsmnTok, jsmn_array, jsmn_object, done, by_action, parse_json_content_add_cmd,
}
use lorawanatd_canarin.Http.Read.{
  on_read_http, on_complete_head, accept_body, is_undefined, request_len, take_added,
}
use lorawanatd_canarin.Http.Simple.{first_begins, first_match-begins}
use lorawanatd_canarin.Http.Config.{Gets, Sets, flat, get_config-Gets, set_config-Sets}
use lorawanatd_canarin.Http.Headers.{
  Announces, any_header, names_length, names_type, told, read_headers-told,
}

-- The request that the parser stores in the client.
abbrev pub stored : PhrParser → HttpClient → Bytes → HttpClient
stored phr client bytes = store_request (phr (client.buf ++ bytes) (length client.buf)) client

abbrev pub headers_of : PhrParser → HttpClient → Bytes → List PhrHeader
headers_of phr client bytes = (phr (client.buf ++ bytes) (length client.buf)).headers

-- Once these bytes are read, the client's buffer holds a whole POST request to this path, with a
-- head of `k` bytes that announces a JSON body of `n` bytes.
pub record IsPost (phr : PhrParser) (client : HttpClient) (bytes path : Bytes) (k n : ℕ)
    : Type 0 where
  pub here : is_disconnected client.state ≡ false
  pub whole : (phr (client.buf ++ bytes) (length client.buf)).pret ≡ complete k
  pub text : IsText (stored phr client bytes).request
  pub method :
      take (stored phr client bytes).request.method_len (stored phr client bytes).request.method
      ≡ codes "POST"
  pub path_is :
      take (stored phr client bytes).request.path_len (stored phr client bytes).request.path ≡ path
  pub announced : All (Announces n) (headers_of phr client bytes)
  pub has_length : any_header names_length (headers_of phr client bytes) ≡ true
  pub has_type : any_header names_type (headers_of phr client bytes) ≡ true
  pub positive : 0 < n
  pub small : n < 2 ^ 31
  pub short : length (print_u n) < tmp_size
  pub arrived : k + n ≤ length (client.buf ++ bytes)
  pub fits : length (client.buf ++ bytes) ≤ http_buf_size

if_json :
    (b : Bool) (x y : Outcome HttpClient) {z : Outcome HttpClient}
    → b ≡ true
    → y ≡ z
    → elim b [ false ↦ x | true ↦ y ] ≡ z
if_json b x y e f = rw e f

accept_body-json :
    (jsmn : JsmnParser) (c : HttpClient) (t : List JsmnTok) (cmds : List Command)
    → c.is_json ≡ true
    → jsmn (drop c.request.header_len c.buf) c.request.content_len ≡ some t
    → by_action c.action (drop c.request.header_len c.buf) t c.cmdq ≡ ok (done cmds)
    → (c' : HttpClient) × (accept_body jsmn c ≡ ok c')
      × (c'.state ≡ http_client_request_complete)
      × (c'.cmdq ≡ cmds)
unfolding accept_body parse_json_content_add_cmd
accept_body-json jsmn c t cmds json tokens added = (
  record c' { cmdq = cmds },
  if_json c.is_json _ _ json
      (>>=-ok (parse_json_content_add_cmd jsmn c') (λ a. ok (take_added a c')) parsed_json),
  refl,
  refl,
)
  where
    c' : HttpClient
    c' = record c {
      state = http_client_request_complete;
      request = record request { content = drop c.request.header_len c.buf };
    }
      where
        request : HttpRequest
        request = c.request

    parsed_json : parse_json_content_add_cmd jsmn c' ≡ ok (done cmds)
    parsed_json = rw (tokens, parse_json_content_add_cmd) added

on_complete_head-body :
    (jsmn : JsmnParser) (c : HttpClient)
    → is_undefined c.action ≡ false
    → 0 < c.request.content_len
    → c.request.header_len + c.request.content_len ≤ length c.buf
    → length c.buf ≤ http_buf_size
    → on_complete_head jsmn c ≡ accept_body jsmn c
unfolding on_complete_head
on_complete_head-body jsmn c known positive arrived fits =
    let some' : (c.request.content_len == 0) ≡ false = ground arith in
    let there : leb (request_len c) (length c.buf) ≡ true = ground arith in
    rw (known, on_complete_head) (rw some' (rw there refl))

module _ (phr : PhrParser) (jsmn : JsmnParser) (client : HttpClient) (bytes path : Bytes) (k n : ℕ)
    (post : IsPost phr client bytes path k n) where
  abbrev head : HttpClient
  head = told n true true (stored phr client bytes)

  parsed : parse_http_buf phr client bytes ≡ ok (conclude (complete k) head)
  unfolding parse_http_buf
  parsed =
      rw
        (read_headers-told n (headers_of phr client bytes) (stored phr client bytes) post.short
          post.small post.announced)
        (rw (post.has_length, post.has_type) (rw post.whole refl))

  routed : get_action_from_http_request head.request ≡ first_begins routes (codes "POST") path
  unfolding get_action_from_http_request
  routed =
      first_match-begins routes head.request (record {
        method_in = post.text.method_in;
        method_clean = post.text.method_clean;
        path_in = post.text.path_in;
        path_clean = post.text.path_clean;
      })
      ∙ rw (post.method, post.path_is) refl

  pub on_read_http-json :
      (action : HttpAction) (t : List JsmnTok) (cmds : List Command)
      → first_begins routes (codes "POST") path ≡ action
      → is_undefined action ≡ false
      → jsmn (drop k (client.buf ++ bytes)) n ≡ some t
      → by_action action (drop k (client.buf ++ bytes)) t client.cmdq ≡ ok (done cmds)
      → (client' : HttpClient) × (on_read_http phr jsmn (received bytes) client ≡ ok client')
        × (client'.state ≡ http_client_request_complete)
        × (client'.cmdq ≡ cmds)
  unfolding on_read_http
  on_read_http-json action t cmds route known tokens added =
      let c = record (complete_request k head) { buf = client.buf ++ bytes } in
      let act : c.action ≡ action = routed ∙ route in
      let (client', accepted, state, cmdq) = accept_body-json jsmn c t cmds refl tokens (
        subst (λ a. by_action a (drop k (client.buf ++ bytes)) t client.cmdq ≡ ok (done cmds))
          (sym act) added) in
      (
        client',
        rw (post.here, on_read_http)
            (rw parsed (
              on_complete_head-body jsmn c (ap is_undefined act ∙ known) post.positive post.arrived
                post.fits
              ∙ accepted)),
        state,
        cmdq,
      )

post-get_config : first_begins routes (codes "POST") (codes "/config/get") ≡ http_get_config
unfolding first_begins starts_with
post-get_config = refl

post-set_config : first_begins routes (codes "POST") (codes "/config/set") ≡ http_set_config
unfolding first_begins starts_with
post-set_config = refl

module _ (phr : PhrParser) (jsmn : JsmnParser) (client : HttpClient) (bytes : Bytes) (k n : ℕ) where
  -- A whole POST request to /config/get whose JSON body is a list of strings that each name a
  -- parameter that can be read makes its client's request complete, and adds one command for each
  -- name, in the order of the list, behind the client's.
  pub on_read_http-get_config :
      (top : JsmnTok) (toks rest : List JsmnTok) (cs : List Command)
      → IsPost phr client bytes (codes "/config/get") k n
      → jsmn (drop k (client.buf ++ bytes)) n ≡ some (top ∷ (toks ++ rest))
      → top.type ≡ jsmn_array
      → top.size ≡ length toks
      → Gets (drop k (client.buf ++ bytes)) toks cs
      → (client' : HttpClient) × (on_read_http phr jsmn (received bytes) client ≡ ok client')
        × (client'.state ≡ http_client_request_complete)
        × (client'.cmdq ≡ client.cmdq ++ cs)
  on_read_http-get_config top toks rest cs post tokens array size gets =
      on_read_http-json phr jsmn client bytes (codes "/config/get") k n post http_get_config
        (top ∷ (toks ++ rest)) (client.cmdq ++ cs) post-get_config refl tokens
        (get_config-Gets (drop k (client.buf ++ bytes)) top toks rest cs client.cmdq array size
          gets)

  -- A whole POST request to /config/set whose JSON body is an object whose names can all be set
  -- makes its client's request complete, and adds one command for each pair, with the value as its
  -- parameter, in the order of the object, behind the client's.
  pub on_read_http-set_config :
      (top : JsmnTok) (pairs : List (JsmnTok × JsmnTok)) (rest : List JsmnTok) (cs : List Command)
      → IsPost phr client bytes (codes "/config/set") k n
      → jsmn (drop k (client.buf ++ bytes)) n ≡ some (top ∷ (flat pairs ++ rest))
      → top.type ≡ jsmn_object
      → top.size ≡ length pairs
      → Sets (drop k (client.buf ++ bytes)) pairs cs
      → (client' : HttpClient) × (on_read_http phr jsmn (received bytes) client ≡ ok client')
        × (client'.state ≡ http_client_request_complete)
        × (client'.cmdq ≡ client.cmdq ++ cs)
  on_read_http-set_config top pairs rest cs post tokens object size sets =
      on_read_http-json phr jsmn client bytes (codes "/config/set") k n post http_set_config
        (top ∷ (flat pairs ++ rest)) (client.cmdq ++ cs) post-set_config refl tokens
        (set_config-Sets (drop k (client.buf ++ bytes)) top pairs rest cs client.cmdq object size
          sets)
