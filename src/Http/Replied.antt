-- ===== src/Http/Replied.antt =====
-- The end of a client's life: once all its commands are done it gets its reply and leaves.
use lorawanatd_canarin.Base.{
  ◌+◌, ◌≡◌, ◌<◌, refl, ap, ◌∙◌, false, List, [], ◌∷◌, ◌++◌, Bytes, codes, c_string, c_string-whole,
  NoNul, All, All-append, ok, length, if◌then◌else◌, if-false,
}
use lorawanatd_canarin.Command.Types.{Command, cmd_executed}
use lorawanatd_canarin.State.{
  Lw, Env, HttpClient, emit, http_written, closed, http_client_request_complete,
}
use lorawanatd_canarin.Clients.{http_client_write}
use lorawanatd_canarin.Http.Reply.{reply_get_cmds, reply_size}
use lorawanatd_canarin.Http.Listing.{AllAnswered, quoted, reply_get_cmds-quoted}
use lorawanatd_canarin.Http.Late.{by_state_complete}
use lorawanatd_canarin.Http.Moves.{process_http_clients-by_state}
use lorawanatd_canarin.Http.Order.{free_first}
use lorawanatd_canarin.Http.Process.{
  finished, current_cmd, finish_client, process_complete, process_http_clients, http_ok,
  http_timeout,
}

current_cmd-done :
    (cs : List Command) → All (λ c. c.state ≡ cmd_executed) cs → current_cmd cs ≡ finished
unfolding current_cmd
current_cmd-done [] h = refl
current_cmd-done (c ∷ cs) h = rw (h.0, current_cmd) (rw (current_cmd-done cs h.1) refl)

abbrev pub listing : List Bytes → Bytes
listing ts = codes "[\n" ++ (quoted ts ++ codes "]\n")

NoNul-quoted : (cs : List Command) (ts : List Bytes) → AllAnswered cs ts → NoNul (quoted ts)
NoNul-quoted [] [] h = tt
NoNul-quoted [] (t ∷ ts) h = absurd h
NoNul-quoted (c ∷ cs) [] h = absurd h
NoNul-quoted (c ∷ []) (t ∷ []) h =
    (refl, All-append _ t (codes "\"\n") h.0.clean (refl, (refl, tt)))
NoNul-quoted (c ∷ []) (t ∷ u ∷ ts) h = absurd h.1
NoNul-quoted (c ∷ d ∷ cs) (t ∷ []) h = absurd h.1
NoNul-quoted (c ∷ d ∷ cs) (t ∷ u ∷ ts) h = (
  refl,
  All-append _ t (codes "\",\n" ++ quoted (u ∷ ts)) h.0.clean
      (refl, (refl, (refl, NoNul-quoted (d ∷ cs) (u ∷ ts) h.1))),
)

NoNul-listing : (cs : List Command) (ts : List Bytes) → AllAnswered cs ts → NoNul (listing ts)
NoNul-listing cs ts h =
    (refl, (refl, All-append _ (quoted ts) (codes "]\n") (NoNul-quoted cs ts h) (refl, (refl, tt))))

-- The daemon when the first client has been sent these two texts, and has been closed.
abbrev pub sent_away : Bytes → Bytes → HttpClient → List HttpClient → Lw → Lw
sent_away head body client clients lw = record lw {
  http = clients;
  effects =
      ((lw.effects ++ http_written client.fd head ∷ []) ++ http_written client.fd body ∷ [])
      ++ closed client.fd ∷ [];
}

finish_client-remote :
    (env : Env) (client : HttpClient) (clients : List HttpClient) (lw : Lw) (json : Bytes)
    → lw.http ≡ client ∷ clients
    → client.local ≡ false
    → reply_get_cmds client.cmdq ≡ ok json
    → finish_client env client lw
      ≡ ok (
          sent_away
            (if client.timed_out then http_timeout else http_ok)
            (c_string json)
            client
            clients
            lw)
unfolding finish_client
finish_client-remote env client clients lw json first remote replied =
    let head : Bytes = if client.timed_out then http_timeout else http_ok in
    let answered : Lw =
      http_client_write client (c_string json) (http_client_write client head lw) in
    rw (remote, finish_client)
      (rw replied (
        free_first client clients answered first
        ∙ ap (λ (lw' : Lw). ok (record lw' { http = clients }))
            (if-false answered (emit answered (closed client.fd)) client.local remote)))

process_complete-done :
    (env : Env) (client : HttpClient) (clients : List HttpClient) (lw : Lw)
    → current_cmd client.cmdq ≡ finished
    → process_complete env client clients lw ≡ finish_client env client lw
unfolding process_complete
process_complete-done env client clients lw done = rw (done, process_complete) refl

-- In the round after the last command of the first client is done, the client that connected is
-- sent the status line, which is 504 if a command was late, and the JSON list of the answers
-- without the white space around them; it is closed and leaves the queue, and the others stay.
pub process_http_clients-replied :
    (env : Env) (lw : Lw) (client : HttpClient) (clients : List HttpClient) (ts : List Bytes)
    → lw.http ≡ client ∷ clients
    → client.state ≡ http_client_request_complete
    → client.local ≡ false
    → All (λ c. c.state ≡ cmd_executed) client.cmdq
    → AllAnswered client.cmdq ts
    → length (quoted ts) + 4 < reply_size
    → process_http_clients env lw
      ≡ ok (
          sent_away
            (if client.timed_out then http_timeout else http_ok)
            (listing ts)
            client
            clients
            lw)
process_http_clients-replied env lw client clients ts first complete remote done answers fits =
    process_http_clients-by_state env client clients lw first
    ∙ (by_state_complete client.state env client clients lw complete
        ∙ (process_complete-done env client clients lw (current_cmd-done client.cmdq done)
            ∙ (finish_client-remote env client clients lw (listing ts) first remote
                  (reply_get_cmds-quoted client.cmdq ts answers fits)
                ∙ ap
                    (λ (body : Bytes). ok (
                      sent_away (if client.timed_out then http_timeout else http_ok) body client
                        clients lw))
                    (c_string-whole (listing ts) (NoNul-listing client.cmdq ts answers)))))
