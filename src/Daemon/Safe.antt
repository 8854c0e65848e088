-- ===== src/Daemon/Safe.antt =====
-- What follows for the code from the addresses of the clients: in every state that the daemon
-- reaches, no client is looked for that is not there, and only remote clients fail.
use lorawanatd_canarin.Base.{
  ◌≡◌, ◌≢◌, ◌⊎◌, inl, inr, refl, subst, ◌∙◌, ap, false, not, List, [], ◌∷◌, ◌++◌, Option, some, ok,
  fault, assert, c_string, All, arith, ◌==◌, >>=-ok, if-false,
}
use lorawanatd_canarin.LwanContext.{test_bit}
use lorawanatd_canarin.Command.Types.{Command, CmdType, cmd_join, cmd_force_update, cmd_res_ok}
use lorawanatd_canarin.Command.Wait.{process}
use lorawanatd_canarin.State.{
  Lw, Env, HttpClient, HttpClientState, emit, http_written, closed, http_client_error,
  http_client_disconnected, http_client_request_complete, http_client_active,
}
use lorawanatd_canarin.Clients.{
  remove_disconnected_http_clients, http_client_write, free_http_client,
}
use lorawanatd_canarin.Clients.Removal.{connected, remove_disconnected-connected}
use lorawanatd_canarin.Context.Params.{mac_tokens}
use lorawanatd_canarin.Context.Event.{context_manager_event}
use lorawanatd_canarin.Context.Unqueued.{join-no_params}
use lorawanatd_canarin.Uart.Run.{with_first}
use lorawanatd_canarin.Uart.Async.{set_uart_buf}
use lorawanatd_canarin.Http.Request.{PhrParser}
use lorawanatd_canarin.Http.Json.{JsmnParser}
use lorawanatd_canarin.Http.Order.{free_first}
use lorawanatd_canarin.Http.Moves.{failed_remote, process_http_clients-by_state}
use lorawanatd_canarin.Http.Late.{by_state_complete}
use lorawanatd_canarin.Http.Process.{
  process_http_clients, process_failed, process_complete, by_state, running, current_cmd, watch_cmd,
  finish_cmd, executed,
}
use lorawanatd_canarin.Daemon.Steps.{Reach}
use lorawanatd_canarin.Daemon.Moves.{Reach-IsValid}
use lorawanatd_canarin.Sessions.View.{unused, Distinct-Apart}

by_state_failed :
    (s : HttpClientState) (env : Env) (client : HttpClient) (clients : List HttpClient) (lw : Lw)
    → (s ≡ http_client_error) ⊎ (s ≡ http_client_disconnected)
    → by_state s env client clients lw ≡ process_failed client lw
by_state_failed http_client_error env client clients lw g = refl
by_state_failed http_client_disconnected env client clients lw g = refl
by_state_failed http_client_active env client clients lw g =
    absurd (elim g [ inl e ↦ cc | inr e ↦ cc ])
by_state_failed http_client_request_complete env client clients lw g =
    absurd (elim g [ inl e ↦ cc | inr e ↦ cc ])

-- What becomes of the daemon when the first client is sent its error response.
abbrev pub turned_away : HttpClient → List HttpClient → Lw → Lw
turned_away client clients lw = record lw {
  http = clients;
  effects =
      (lw.effects ++ http_written client.fd (c_string client.error_resp) ∷ [])
      ++ closed client.fd ∷ [];
}

process_failed-remote :
    (client : HttpClient) (clients : List HttpClient) (lw : Lw)
    → lw.http ≡ client ∷ clients
    → client.local ≡ false
    → process_failed client lw ≡ ok (turned_away client clients lw)
unfolding process_failed
process_failed-remote client clients lw first remote =
    let answered : Lw = http_client_write client (c_string client.error_resp) lw in
    >>=-ok (assert (not client.local)) (λ _. free_http_client client answered)
      (ap (λ b. assert (not b)) remote)
    ∙ (free_first client clients answered first
        ∙ ap (λ (lw' : Lw). ok (record lw' { http = clients }))
            (if-false answered (emit answered (closed client.fd)) client.local remote))

-- What the context manager hears of when a command of the first client is done.
abbrev heard : HttpClient → List HttpClient → List Command → Command → List Command → Lw → Lw
heard client clients before cmd after lw =
    set_uart_buf [] (with_first client clients (before ++ executed cmd ∷ after) lw)

finish_cmd-timely :
    (env : Env) (client : HttpClient) (clients : List HttpClient) (before : List Command)
    (cmd : Command) (after : List Command) (lw : Lw)
    → client.timed_out ≡ false
    → finish_cmd env client clients before cmd after lw
      ≡ context_manager_event env cmd.def.type
          (some (executed cmd))
          (heard client clients before cmd after lw)
unfolding finish_cmd
finish_cmd-timely env client clients before cmd after lw timely = ground arith

watch_cmd-answered :
    (env : Env) (client : HttpClient) (clients : List HttpClient) (before : List Command)
    (cmd : Command) (after : List Command) (lw : Lw)
    → process cmd.def.process_cmd cmd env.now ≡ ok cmd_res_ok
    → watch_cmd env client clients before cmd after lw
      ≡ finish_cmd env client clients before cmd after lw
unfolding watch_cmd
watch_cmd-answered env client clients before cmd after lw answered = rw (answered, watch_cmd) refl

process_complete-running :
    (env : Env) (client : HttpClient) (clients : List HttpClient) (before : List Command)
    (cmd : Command) (after : List Command) (lw : Lw)
    → current_cmd client.cmdq ≡ running before cmd after
    → process_complete env client clients lw ≡ watch_cmd env client clients before cmd after lw
unfolding process_complete
process_complete-running env client clients before cmd after lw at = rw (at, process_complete) refl

event-join_faults :
    (env : Env) (t : CmdType) (cmd : Option Command) (lw : Lw)
    → (t ≡ cmd_join) ⊎ (t ≡ cmd_force_update)
    → All (λ p. test_bit lw.lwan_ctx.mac_params.dirty p.0 ≡ false) mac_tokens
    → All (λ c. (c.id == lw.next_id) ≡ false) lw.http
    → context_manager_event env t cmd lw ≡ fault
event-join_faults env t cmd lw type clean fresh =
    let both = join-no_params env cmd lw clean fresh in
    elim type [ inl e ↦ rw e both.0 | inr e ↦ rw e both.1 ]

module _ {phr : PhrParser} {jsmn : JsmnParser} {lw : Lw} (reached : Reach phr jsmn lw) where
  -- In every state that the daemon reaches, `remove_disconnected_http_clients` ends without a
  -- fault, and leaves exactly the clients that are not disconnected, in their order.
  pub Reach-remove_disconnected :
      (lw' : Lw) × (remove_disconnected_http_clients lw ≡ ok lw') × (lw'.http ≡ connected lw.http)
  Reach-remove_disconnected =
      remove_disconnected-connected lw (Distinct-Apart lw.http (Reach-IsValid reached).1)

  module _ (env : Env) (client : HttpClient) (clients : List HttpClient)
      (first : lw.http ≡ client ∷ clients) where
    -- In every state that the daemon reaches, if the first client's request has failed or its
    -- connection has ended, the assertion that it is not local holds: it is sent its error
    -- response, closed and taken out of the queue, and the other clients stay.
    pub Reach-process_failed :
        (client.state ≡ http_client_error) ⊎ (client.state ≡ http_client_disconnected)
        → process_http_clients env lw ≡ ok (turned_away client clients lw)
    Reach-process_failed gone =
        process_http_clients-by_state env client clients lw first
        ∙ (by_state_failed client.state env client clients lw gone
            ∙ process_failed-remote client clients lw first
                (failed_remote client clients lw first (Reach-IsValid reached) not_complete))
      where
        not_complete : client.state ≢ http_client_request_complete
        not_complete e = elim gone [ inl g ↦ cc | inr g ↦ cc ]

    -- In every state that the daemon reaches, if the first client's join, or its force update, is
    -- answered in time and no MAC parameter waits to be written, the round of
    -- `process_http_clients` in which that is noticed ends in undefined behaviour.
    pub Reach-join_faults :
        (before : List Command) (cmd : Command) (after : List Command)
        → client.state ≡ http_client_request_complete
        → client.timed_out ≡ false
        → current_cmd client.cmdq ≡ running before cmd after
        → (cmd.def.type ≡ cmd_join) ⊎ (cmd.def.type ≡ cmd_force_update)
        → process cmd.def.process_cmd cmd env.now ≡ ok cmd_res_ok
        → All (λ p. test_bit lw.lwan_ctx.mac_params.dirty p.0 ≡ false) mac_tokens
        → process_http_clients env lw ≡ fault
    Reach-join_faults before cmd after complete timely at type answered clean =
        process_http_clients-by_state env client clients lw first
        ∙ (by_state_complete client.state env client clients lw complete
            ∙ (process_complete-running env client clients before cmd after lw at
                ∙ (watch_cmd-answered env client clients before cmd after lw answered
                    ∙ (finish_cmd-timely env client clients before cmd after lw timely
                        ∙ event-join_faults env cmd.def.type (some (executed cmd)) _ type clean
                            fresh))))
      where
        fresh : All (λ c. (c.id == lw.next_id) ≡ false) (client ∷ clients)
        fresh =
            subst (λ cs. All (λ (c : HttpClient). (c.id == lw.next_id) ≡ false) cs) first
              (unused lw.next_id lw.http (Reach-IsValid reached).0)
