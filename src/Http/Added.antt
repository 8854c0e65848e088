-- ===== src/Http/Added.antt =====
-- The commands that a request adds are new, and stand behind those that the client had.
use lorawanatd_canarin.Base.{
  ℕ, zero, suc, ◌+◌, ◌≡◌, refl, List, [], ◌∷◌, ◌++◌, Option, none, some, Bytes, Outcome, Ensures,
  returns, Ensures->>=, Ensures-any, Bool-cases, Option-cases, inl, inr, length,
}
use lorawanatd_canarin.Command.Types.{
  Command, cmd_new, set, cmd_get, cmd_set, cmd_send, cmd_action, cmd_internal,
}
use lorawanatd_canarin.Command.Make.{make_cmd}
use lorawanatd_canarin.Command.Order.{make_cmd-new}
use lorawanatd_canarin.State.{
  HttpClient, HttpAction, http_undefined, http_reset, http_hard_reset, http_status, http_join,
  http_get_config, http_set_config, http_send_data, http_sendb_data, http_force_update,
}
use lorawanatd_canarin.Http.Json.{
  Added, JsmnTok, JsmnParser, insert_tail, action_cmd, add_cmd, tok_at, tok_text, tok_len,
  all_strings, add_gets, get_config, add_sets, set_config, find_fields, send_data, add_send,
  send_cmd, send_param, is_array, is_object, no_fields, by_action, parse_json_content_add_cmd,
  send_token,
}

-- `P` is any property of a queue that a new command at its end does not break.
module _ (P : List Command → Type 0)
    (closed : (cmds : List Command) (c : Command)
      → P cmds
      → c.state ≡ cmd_new
      → P (cmds ++ c ∷ [])) where
  abbrev pub Adds : Outcome Added → Type 0
  Adds = Ensures (λ (a : Added). P a.cmds)

  insert_tail-adds :
      (cmds : List Command) (o : Option Command)
      → ((c : Command) → o ≡ some c → c.state ≡ cmd_new)
      → P cmds
      → P (insert_tail cmds o).cmds
  insert_tail-adds cmds none new h = h
  insert_tail-adds cmds (some c) new h = closed cmds c h (new c refl)

  action_cmd-new : (a : HttpAction) (c : Command) → action_cmd a ≡ some c → c.state ≡ cmd_new
  action_cmd-new http_reset c e = make_cmd-new _ _ none 10 cmd_action e
  action_cmd-new http_hard_reset c e = make_cmd-new _ _ none 10 cmd_action e
  action_cmd-new http_status c e = make_cmd-new _ _ none 0 cmd_action e
  action_cmd-new http_join c e = make_cmd-new _ _ none 60 cmd_action e
  action_cmd-new http_force_update c e = make_cmd-new _ _ none 1 cmd_internal e
  action_cmd-new http_undefined c e = absurd (cc)
  action_cmd-new http_get_config c e = absurd (cc)
  action_cmd-new http_set_config c e = absurd (cc)
  action_cmd-new http_send_data c e = absurd (cc)
  action_cmd-new http_sendb_data c e = absurd (cc)

  pub add_cmd-adds : (client : HttpClient) → P client.cmdq → P (add_cmd client).cmds
  unfolding add_cmd
  add_cmd-adds client h = insert_tail-adds client.cmdq _ (action_cmd-new client.action) h

  add_gets-Adds :
      (content : Bytes) (t : List JsmnTok) (n i : ℕ) (cmds : List Command)
      → P cmds
      → Adds (add_gets content t n i cmds)
  unfolding add_gets
  add_gets-Adds content t zero i cmds h = returns _ h
  add_gets-Adds content t (suc n) i cmds h = Ensures->>= (Ensures-any (tok_at t i)) λ tok _.
      elim (Option-cases (make_cmd (tok_text content tok) (tok_len tok) none 60 cmd_get)) [
        | inl e ↦ rw e (returns _ h)
        | inr (c, e) ↦ rw e (
            add_gets-Adds content t n (i + 1) (cmds ++ c ∷ [])
              (closed cmds c h (make_cmd-new _ _ none 60 cmd_get e)))
      ]

  get_config-Adds :
      (content : Bytes) (t : List JsmnTok) (cmds : List Command)
      → P cmds
      → Adds (get_config content t cmds)
  unfolding get_config
  get_config-Adds content t cmds h = Ensures->>= (Ensures-any (tok_at t 0)) λ top _.
      elim (Bool-cases (is_array top.type)) [
        | inr other ↦ rw other (returns _ h)
        | inl array ↦ rw array (
            Ensures->>= (Ensures-any (all_strings t top.size 1)) λ strings _.
              elim (Bool-cases strings) [
                | inl yes' ↦ rw yes' (add_gets-Adds content t top.size 1 cmds h)
                | inr no' ↦ rw no' (returns _ h)
              ])
      ]

  add_sets-Adds :
      (content : Bytes) (t : List JsmnTok) (n i : ℕ) (cmds : List Command)
      → P cmds
      → Adds (add_sets content t n i cmds)
  unfolding add_sets
  add_sets-Adds content t zero i cmds h = returns _ h
  add_sets-Adds content t (suc n) i cmds h = Ensures->>= (Ensures-any (tok_at t i)) λ tok1 _.
      Ensures->>= (Ensures-any (tok_at t (i + 1))) λ tok2 _.
        let param = set (tok_text content tok2) (tok_len tok2) in
        elim (Option-cases
          (make_cmd (tok_text content tok1) (tok_len tok1) (some param) 60 cmd_set)) [
            | inl e ↦ rw e (returns _ h)
            | inr (c, e) ↦ rw e (
                add_sets-Adds content t n (i + 2) (cmds ++ c ∷ [])
                  (closed cmds c h (make_cmd-new _ _ (some param) 60 cmd_set e)))
          ]

  set_config-Adds :
      (content : Bytes) (t : List JsmnTok) (cmds : List Command)
      → P cmds
      → Adds (set_config content t cmds)
  unfolding set_config
  set_config-Adds content t cmds h = Ensures->>= (Ensures-any (tok_at t 0)) λ top _.
      elim (Bool-cases (is_object top.type)) [
        | inr other ↦ rw other (returns _ h)
        | inl object ↦ rw object (add_sets-Adds content t top.size 1 cmds h)
      ]

  add_send-adds :
      (a : HttpAction) (content : Bytes) (payload port : Option JsmnTok) (cmds : List Command)
      → P cmds
      → P (add_send a content payload port cmds).cmds
  add_send-adds a content none port cmds h = h
  add_send-adds a content (some payload) none cmds h = h
  add_send-adds a content (some payload) (some port) cmds h =
      insert_tail-adds cmds (send_cmd a (send_param content payload port))
        (λ c e.
          make_cmd-new (send_token a) (length (send_token a))
            (some (send_param content payload port)) 0 cmd_send e)
        h

  send_data-Adds :
      (a : HttpAction) (content : Bytes) (t : List JsmnTok) (cmds : List Command)
      → P cmds
      → Adds (send_data a content t cmds)
  unfolding send_data
  send_data-Adds a content t cmds h = Ensures->>= (Ensures-any (tok_at t 0)) λ top _.
      elim (Bool-cases (is_object top.type)) [
        | inr other ↦ rw other (returns _ h)
        | inl object ↦ rw object (
            Ensures->>= (Ensures-any (find_fields content t top.size 1 no_fields))
              λ f _. returns _ (add_send-adds a content f.payload f.port cmds h))
      ]

  by_action-Adds :
      (a : HttpAction) (content : Bytes) (t : List JsmnTok) (cmds : List Command)
      → P cmds
      → Adds (by_action a content t cmds)
  by_action-Adds http_get_config content t cmds h = get_config-Adds content t cmds h
  by_action-Adds http_set_config content t cmds h = set_config-Adds content t cmds h
  by_action-Adds http_send_data content t cmds h = send_data-Adds http_send_data content t cmds h
  by_action-Adds http_sendb_data content t cmds h = send_data-Adds http_sendb_data content t cmds h
  by_action-Adds _ content t cmds h = returns _ h

  pub parse_json-Adds :
      (jsmn : JsmnParser) (client : HttpClient)
      → P client.cmdq
      → Adds (parse_json_content_add_cmd jsmn client)
  unfolding parse_json_content_add_cmd
  parse_json-Adds jsmn client h =
      elim (Option-cases (jsmn client.request.content client.request.content_len)) [
        | inl e ↦ rw (e, parse_json_content_add_cmd) (returns _ h)
        | inr (t, e) ↦
            rw (e, parse_json_content_add_cmd)
              (by_action-Adds client.action client.request.content t client.cmdq h)
      ]
