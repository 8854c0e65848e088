-- ===== src/Http/Json.antt =====
-- `add_cmd` and `parse_json_content_add_cmd`: the commands that a request asks for. The JSON
-- tokens are jsmn's, a parameter here.
use lorawanatd_canarin.Base.{
  ℕ, zero, suc, ◌+◌, ◌-◌, Bool, true, false, List, [], ◌∷◌, ◌++◌, Option, none, some, Bytes, codes,
  strncmp_eq, Outcome, ok, deref, ◌>>=◌, if◌then◌else◌, length, get_elem?, drop,
}
use lorawanatd_canarin.Command.Types.{
  Command, CommandParam, set, send, CmdGroup, cmd_action, cmd_get, cmd_set, cmd_send, cmd_internal,
}
use lorawanatd_canarin.Command.Make.{make_cmd}
use lorawanatd_canarin.State.{
  HttpClient, HttpAction, http_reset, http_hard_reset, http_status, http_join, http_get_config,
  http_set_config, http_send_data, http_sendb_data, http_force_update,
}

pub data JsmnType : Type 0 where
  jsmn_undefined jsmn_object jsmn_array jsmn_string jsmn_primitive : JsmnType

pub record JsmnTok : Type 0 where
  pub type : JsmnType
  pub start : ℕ
  pub end : ℕ
  pub size : ℕ

-- `jsmn_parse` on a text and its length: none for a negative return, or else the array of 128
-- tokens (those that it did not fill are zeroed).
abbrev pub JsmnParser : Type 0
JsmnParser = Bytes → ℕ → Option (List JsmnTok)

-- The commands so far, and whether the function returned `RETURN_OK`.
pub record Added : Type 0 where
  pub cmds : List Command
  pub accepted : Bool

abbrev pub rejected : List Command → Added
rejected cmds = record { cmds = cmds; accepted = false }

abbrev pub done : List Command → Added
done cmds = record { cmds = cmds; accepted = true }

-- `STAILQ_INSERT_TAIL`, or `RETURN_ERROR` where there is no command.
abbrev pub insert_tail : List Command → Option Command → Added
insert_tail cmds none = rejected cmds
insert_tail cmds (some cmd) = done (cmds ++ cmd ∷ [])

abbrev pub simple_cmd : Bytes → ℕ → CmdGroup → Option Command
simple_cmd token timeout group = make_cmd token (length token) none timeout group

abbrev pub action_cmd : HttpAction → Option Command
action_cmd http_reset = simple_cmd (codes "reset") 10 cmd_action
action_cmd http_hard_reset = simple_cmd (codes "hard_reset") 10 cmd_action
action_cmd http_status = simple_cmd (codes "status") 0 cmd_action
action_cmd http_join = simple_cmd (codes "join") 60 cmd_action
action_cmd http_force_update = simple_cmd (codes "force_update") 1 cmd_internal
action_cmd _ = none

unfoldable pub add_cmd : HttpClient → Added
unfolding make_cmd
add_cmd client = insert_tail client.cmdq (action_cmd client.action)

-- The text of a token and its length.
abbrev pub tok_text : Bytes → JsmnTok → Bytes
tok_text content tok = drop tok.start content

abbrev pub tok_len : JsmnTok → ℕ
tok_len tok = tok.end - tok.start

abbrev pub is_string : JsmnType → Bool
is_string jsmn_string = true
is_string _ = false

abbrev pub is_array : JsmnType → Bool
is_array jsmn_array = true
is_array _ = false

abbrev pub is_object : JsmnType → Bool
is_object jsmn_object = true
is_object _ = false

-- `t[i]`, which must stand in the array.
abbrev pub tok_at : List JsmnTok → ℕ → Outcome JsmnTok
tok_at t i = deref (get_elem? t i)

-- The first pass of `HTTP_GET_CONFIG`, over the `n` tokens from `i` on.
unfoldable pub all_strings : List JsmnTok → ℕ → ℕ → Outcome Bool
all_strings t zero i = ok true
all_strings t (suc n) i = do
  tok ← tok_at t i
  elim (is_string tok.type) [ true ↦ all_strings t n (i + 1) | false ↦ ok false ]

-- The second pass: a command for each name.
unfoldable pub add_gets : Bytes → List JsmnTok → ℕ → ℕ → List Command → Outcome Added
unfolding make_cmd
add_gets content t zero i cmds = ok (done cmds)
add_gets content t (suc n) i cmds = do
  tok ← tok_at t i
  elim (make_cmd (tok_text content tok) (tok_len tok) none 60 cmd_get) [
    | none ↦ ok (rejected cmds)
    | some cmd ↦ add_gets content t n (i + 1) (cmds ++ cmd ∷ [])
  ]

unfoldable pub get_config : Bytes → List JsmnTok → List Command → Outcome Added
unfolding all_strings add_gets
get_config content t cmds = do
  top ← tok_at t 0
  elim (is_array top.type) [
    | false ↦ ok (rejected cmds)
    | true ↦ do
      strings ← all_strings t top.size 1
      elim strings [ true ↦ add_gets content t top.size 1 cmds | false ↦ ok (rejected cmds) ]
  ]

-- The loop of `HTTP_SET_CONFIG`, over `n` pairs of a name and a value.
unfoldable pub add_sets : Bytes → List JsmnTok → ℕ → ℕ → List Command → Outcome Added
unfolding make_cmd
add_sets content t zero i cmds = ok (done cmds)
add_sets content t (suc n) i cmds = do
  tok1 ← tok_at t i
  tok2 ← tok_at t (i + 1)
  let param = set (tok_text content tok2) (tok_len tok2)
  elim (make_cmd (tok_text content tok1) (tok_len tok1) (some param) 60 cmd_set) [
    | none ↦ ok (rejected cmds)
    | some cmd ↦ add_sets content t n (i + 2) (cmds ++ cmd ∷ [])
  ]

unfoldable pub set_config : Bytes → List JsmnTok → List Command → Outcome Added
unfolding add_sets
set_config content t cmds = do
  top ← tok_at t 0
  elim (is_object top.type) [
    | false ↦ ok (rejected cmds)
    | true ↦ add_sets content t top.size 1 cmds
  ]

-- `data`, `data_len`, `port` and `port_len`; `none` is a NULL pointer.
pub record SendFields : Type 0 where
  pub payload : Option JsmnTok
  pub port : Option JsmnTok

abbrev pub no_fields : SendFields
no_fields = record { payload = none; port = none }

abbrev pub take_field : Bytes → JsmnTok → JsmnTok → SendFields → SendFields
take_field content tok1 tok2 f =
    if strncmp_eq (tok_text content tok1) (codes "data") (tok_len tok1)
    then record f { payload = some tok2 }
    else if strncmp_eq (tok_text content tok1) (codes "port") (tok_len tok1)
    then record f { port = some tok2 }
    else f

unfoldable pub find_fields : Bytes → List JsmnTok → ℕ → ℕ → SendFields → Outcome SendFields
find_fields content t zero i f = ok f
find_fields content t (suc n) i f = do
  tok1 ← tok_at t i
  tok2 ← tok_at t (i + 1)
  find_fields content t n (i + 2) (take_field content tok1 tok2 f)

abbrev pub send_token : HttpAction → Bytes
send_token http_send_data = codes "send"
send_token _ = codes "sendb"

abbrev pub send_param : Bytes → JsmnTok → JsmnTok → CommandParam
send_param content payload port =
    send (tok_text content payload) (tok_len payload) (tok_text content port) (tok_len port)

abbrev pub send_cmd : HttpAction → CommandParam → Option Command
send_cmd action param =
    make_cmd (send_token action) (length (send_token action)) (some param) 0 cmd_send

abbrev pub add_send : HttpAction → Bytes → Option JsmnTok → Option JsmnTok → List Command → Added
add_send action content (some payload) (some port) cmds =
    insert_tail cmds (send_cmd action (send_param content payload port))
add_send action content (some payload) none cmds = rejected cmds
add_send action content none _ cmds = rejected cmds

unfoldable pub send_data : HttpAction → Bytes → List JsmnTok → List Command → Outcome Added
unfolding find_fields make_cmd strncmp_eq
send_data action content t cmds = do
  top ← tok_at t 0
  elim (is_object top.type) [
    | false ↦ ok (rejected cmds)
    | true ↦ do
      f ← find_fields content t top.size 1 no_fields
      ok (add_send action content f.payload f.port cmds)
  ]

-- The `switch`; for the actions with no case the function just returns.
abbrev pub by_action : HttpAction → Bytes → List JsmnTok → List Command → Outcome Added
by_action http_get_config content t cmds = get_config content t cmds
by_action http_set_config content t cmds = set_config content t cmds
by_action http_send_data content t cmds = send_data http_send_data content t cmds
by_action http_sendb_data content t cmds = send_data http_sendb_data content t cmds
by_action _ content t cmds = ok (done cmds)

unfoldable pub parse_json_content_add_cmd : JsmnParser → HttpClient → Outcome Added
unfolding get_config set_config send_data
parse_json_content_add_cmd jsmn client =
    elim (jsmn client.request.content client.request.content_len) [
      | none ↦ ok (rejected client.cmdq)
      | some t ↦ by_action client.action client.request.content t client.cmdq
    ]
