-- ===== src/Http/Sending.antt =====
-- POST /send and POST /sendb: from the bytes that are read to the text for the board.
use lorawanatd_canarin.Base.{
  ℕ, ◌≡◌, ◌<◌, refl, ◌∙◌, subst, false, ◌⊎◌, inl, inr, List, [], ◌∷◌, ◌++◌, some, none, Bytes,
  codes, ok, arith, length, drop, starts_with, strncmp_eq, NoNul,
}
use lorawanatd_canarin.LwanContext.{LwanContext}
use lorawanatd_canarin.Command.Types.{Command, CommandParam, ConstructCmd, send, construct_send_cmd}
use lorawanatd_canarin.Command.Make.{make_cmd, find_def, is_wanted}
use lorawanatd_canarin.Command.Table.{cmd_def_list}
use lorawanatd_canarin.Command.Construct.{construct, send_text, started}
use lorawanatd_canarin.Command.Send.{send_line, send_text-line}
use lorawanatd_canarin.State.{
  HttpClient, HttpAction, http_send_data, http_sendb_data, http_client_request_complete,
}
use lorawanatd_canarin.Push.{received}
use lorawanatd_canarin.Http.Route.{routes}
use lorawanatd_canarin.Http.Request.{PhrParser}
use lorawanatd_canarin.Http.Json.{
  JsmnParser, JsmnTok, jsmn_object, done, SendFields, no_fields, take_field, find_fields, tok_text,
  tok_len, by_action, send_param, send_cmd, send_data,
}
use lorawanatd_canarin.Http.Read.{on_read_http, is_undefined}
use lorawanatd_canarin.Http.Simple.{first_begins}
use lorawanatd_canarin.Http.Posted.{IsPost, on_read_http-json}

-- The two URLs.
pub data SendUrl : Type 0 where
  url_send url_sendb : SendUrl

abbrev pub send_path : SendUrl → Bytes
send_path url_send = codes "/send"
send_path url_sendb = codes "/sendb"

-- The AT command of both.
abbrev pub send_at : Bytes
send_at = codes "AT+SEND"

abbrev send_action : SendUrl → HttpAction
send_action url_send = http_send_data
send_action url_sendb = http_sendb_data

post-send : (u : SendUrl) → first_begins routes (codes "POST") (send_path u) ≡ send_action u
unfolding first_begins starts_with
post-send url_send = refl
post-send url_sendb = refl

send_cmd-at :
    (u : SendUrl) (param : CommandParam)
    → (cmd : Command) × (send_cmd (send_action u) param ≡ some cmd)
      × (cmd.param ≡ param)
      × (cmd.def.cmd ≡ send_at)
      × (cmd.def.construct_cmd ≡ construct_send_cmd)
unfolding make_cmd find_def is_wanted cmd_def_list strncmp_eq
send_cmd-at url_send param = (_, refl, refl, refl, refl)
send_cmd-at url_sendb param = (_, refl, refl, refl, refl)

-- The token stands for this text.
abbrev pub Spells : Bytes → JsmnTok → Bytes → Type 0
Spells content tok text =
    (rest : Bytes) × (tok_text content tok ≡ text ++ rest) × (tok_len tok ≡ length text)

take_field-data :
    (content : Bytes) (d v : JsmnTok) (f : SendFields)
    → Spells content d (codes "data")
    → take_field content d v f ≡ record f { payload = some v }
unfolding strncmp_eq
take_field-data content d v f (rest, text, size) = rw (text, size) refl

take_field-port :
    (content : Bytes) (p v : JsmnTok) (f : SendFields)
    → Spells content p (codes "port")
    → take_field content p v f ≡ record f { port = some v }
unfolding strncmp_eq
take_field-port content p v f (rest, text, size) = rw (text, size) refl

-- The two pairs of the object, in either order.
abbrev pub Pairs : JsmnTok → JsmnTok → JsmnTok → JsmnTok → List JsmnTok → Type 0
Pairs d dv p pv toks = (toks ≡ d ∷ dv ∷ p ∷ pv ∷ []) ⊎ (toks ≡ p ∷ pv ∷ d ∷ dv ∷ [])

find_fields-Pairs :
    (content : Bytes) (top d dv p pv : JsmnTok) (toks rest : List JsmnTok)
    → Pairs d dv p pv toks
    → Spells content d (codes "data")
    → Spells content p (codes "port")
    → find_fields content (top ∷ (toks ++ rest)) 2 1 no_fields
      ≡ ok (record { payload = some dv; port = some pv })
unfolding find_fields
find_fields-Pairs content top d dv p pv toks rest (inl e) is_data is_port =
    rw (e, find_fields)
      (rw (take_field-data content d dv no_fields is_data) (
        rw (take_field-port content p pv (record { payload = some dv; port = none }) is_port) refl))
find_fields-Pairs content top d dv p pv toks rest (inr e) is_data is_port =
    rw (e, find_fields)
      (rw (take_field-port content p pv no_fields is_port) (
        rw (take_field-data content d dv (record { payload = none; port = some pv }) is_data) refl))

send_data-Pairs :
    (u : SendUrl) (content : Bytes) (top d dv p pv : JsmnTok) (toks rest : List JsmnTok)
    (cmds : List Command) (cmd : Command)
    → top.type ≡ jsmn_object
    → top.size ≡ 2
    → Pairs d dv p pv toks
    → Spells content d (codes "data")
    → Spells content p (codes "port")
    → send_cmd (send_action u) (send_param content dv pv) ≡ some cmd
    → by_action (send_action u) content (top ∷ (toks ++ rest)) cmds ≡ ok (done (cmds ++ cmd ∷ []))
unfolding send_data
send_data-Pairs u content top d dv p pv toks rest cmds cmd object size pairs is_data is_port made =
    by_url u content top toks rest cmds
    ∙ rw (object, send_data)
        (rw (size, find_fields-Pairs content top d dv p pv toks rest pairs is_data is_port)
          (rw made refl))
  where
    by_url :
        (u : SendUrl) (content : Bytes) (top : JsmnTok) (toks rest : List JsmnTok)
        (cmds : List Command)
        → by_action (send_action u) content (top ∷ (toks ++ rest)) cmds
          ≡ send_data (send_action u) content (top ∷ (toks ++ rest)) cmds
    by_url url_send content top toks rest cmds = refl
    by_url url_sendb content top toks rest cmds = refl

-- A whole POST request to /send or /sendb whose JSON body is an object with "data" and "port", in
-- either order, makes its client's request complete and adds one command, for which the text that
-- goes to the board is AT+SEND=port:mode:data with the confirmation mode of that time. The port and
-- the data hold no NUL, and the mode has one digit.
pub on_read_http-send :
    (phr : PhrParser) (jsmn : JsmnParser) (client : HttpClient) (bytes : Bytes) (k n : ℕ)
    (u : SendUrl) (top d dv p pv : JsmnTok) (toks rest : List JsmnTok) (payload port : Bytes)
    (ctx : LwanContext) (now : ℕ)
    → IsPost phr client bytes (send_path u) k n
    → jsmn (drop k (client.buf ++ bytes)) n ≡ some (top ∷ (toks ++ rest))
    → top.type ≡ jsmn_object
    → top.size ≡ 2
    → Pairs d dv p pv toks
    → Spells (drop k (client.buf ++ bytes)) d (codes "data")
    → Spells (drop k (client.buf ++ bytes)) dv payload
    → Spells (drop k (client.buf ++ bytes)) p (codes "port")
    → Spells (drop k (client.buf ++ bytes)) pv port
    → NoNul payload
    → NoNul port
    → ctx.mac_params.confirmation_mode < 10
    → (client' : HttpClient) × (cmd : Command) × (on_read_http phr jsmn (received bytes) client
        ≡ ok client')
      × (client'.state ≡ http_client_request_complete)
      × (client'.cmdq ≡ client.cmdq ++ cmd ∷ [])
      × (construct cmd.def.construct_cmd ctx now cmd
          ≡ ok (
              started ctx now cmd
                (send_line send_at port ctx.mac_params.confirmation_mode payload)))
on_read_http-send phr jsmn client bytes k n u top d dv p pv toks rest payload port ctx now post
      tokens object size pairs is_data (after, payload_text, payload_size) is_port
      (after', port_text, port_size) clean clean' mode =
    let content = drop k (client.buf ++ bytes) in
    let (cmd, made, param, at, constructs) = send_cmd-at u (send_param content dv pv) in
    let (client', e, state, cmdq) =
      on_read_http-json phr jsmn client bytes (send_path u) k n post (send_action u)
        (top ∷ (toks ++ rest)) (client.cmdq ++ cmd ∷ []) (post-send u) (known u) tokens
        (send_data-Pairs u content top d dv p pv toks rest client.cmdq cmd object size pairs is_data
          is_port made) in
    let spelled : cmd.param
        ≡ send (payload ++ after) (length payload) (port ++ after') (length port) =
      param ∙ rw (payload_text, payload_size, port_text, port_size) refl in
    let line : send_text ctx cmd
        ≡ ok (send_line send_at port ctx.mac_params.confirmation_mode payload) =
      subst
        (λ c. send_text ctx cmd ≡ ok (send_line c port ctx.mac_params.confirmation_mode payload)) at
        (send_text-line ctx cmd payload after port after' spelled mode (rw at (ground arith)) clean'
          clean) in
    (client', cmd, e, state, cmdq, sent_line cmd.def.construct_cmd ctx now cmd _ constructs line)
  where
    known : (u : SendUrl) → is_undefined (send_action u) ≡ false
    known url_send = refl
    known url_sendb = refl

    sent_line :
        (c : ConstructCmd) (ctx : LwanContext) (now : ℕ) (cmd : Command) (text : Bytes)
        → c ≡ construct_send_cmd
        → send_text ctx cmd ≡ ok text
        → construct c ctx now cmd ≡ ok (started ctx now cmd text)
    sent_line c ctx now cmd text e line = unfold construct in rw (e, construct) (rw line refl)
