-- ===== src/Http/Order.antt =====
-- `process_http_clients` keeps the queue of clients in order.
use lorawanatd_canarin.Base.{
  ◌≡◌, refl, true, not, ◌&&◌, ◌||◌, List, [], ◌∷◌, ◌++◌, none, some, arith, c_string, ok, assert,
  returns, Ensures->>=, Ensures-any, Ensures-mono, Bool-cases, inl, inr, ==_refl, if◌then◌else◌,
}
use lorawanatd_canarin.Command.Types.{
  Command, CmdState, CmdResCode, cmd_new, cmd_executing, cmd_executed, cmd_error, cmd_res_ok,
  cmd_res_timeout, cmd_res_waiting, cmd_res_ignore, cmd_reset,
}
use lorawanatd_canarin.Command.Wait.{process}
use lorawanatd_canarin.Command.Order.{is_resting, in_order, is_resting-all_new}
use lorawanatd_canarin.State.{
  Lw, Env, HttpClient, HttpClientState, http_client_error, http_client_disconnected,
  http_client_active, http_client_request_complete,
}
use lorawanatd_canarin.Clients.{free_http_client, stailq_remove, close_client, http_client_write}
use lorawanatd_canarin.Context.Order.{AllResting, context_manager_event-rests}
use lorawanatd_canarin.Uart.Order.{IsSerial, KeepsSerial, IsSerial-AllResting}
use lorawanatd_canarin.Http.Reply.{reply_get_cmds}
use lorawanatd_canarin.Http.Process.{
  Current, waiting, finished, running, failed, current_cmd, current_at, after_cmd, executed,
  finish_cmd, watch_cmd, recover_cmd, finish_client, process_complete, process_failed, by_state,
  process_http_clients, with_timeout, is_delay, http_ok, http_timeout,
}

-- Where a command is found executing, the queue rests once it is done. No command has failed.
abbrev CanFinish : Current → Type 0
CanFinish waiting = Unit
CanFinish finished = Unit
CanFinish (running before cmd after) =
    (c : Command) → c.state ≡ cmd_executed → is_resting (before ++ c ∷ after) ≡ true
CanFinish (failed before cmd after) = ⊥

CanFinish-after_cmd :
    (c : Command) (n : Current) → c.state ≡ cmd_executed → CanFinish n → CanFinish (after_cmd c n)
unfolding is_resting
CanFinish-after_cmd c waiting done h = tt
CanFinish-after_cmd c finished done h = tt
CanFinish-after_cmd c (running before cmd after) done h = λ d run. ground (arith, h d run)
CanFinish-after_cmd c (failed before cmd after) done h = h

CanFinish-current_at :
    (s : CmdState) (c : Command) (cs : List Command)
    → c.state ≡ s
    → in_order (c ∷ cs) ≡ true
    → (in_order cs ≡ true → CanFinish (current_cmd cs))
    → CanFinish (current_at s c cs (current_cmd cs))
unfolding in_order is_resting
CanFinish-current_at cmd_new c cs e h rest = tt
CanFinish-current_at cmd_executing c cs e h rest = λ d run. ground (arith, is_resting-all_new cs)
CanFinish-current_at cmd_executed c cs e h rest =
    CanFinish-after_cmd c (current_cmd cs) e (rest (ground arith))
CanFinish-current_at cmd_error c cs e h rest = absurd (ground arith)

CanFinish-current_cmd : (cs : List Command) → in_order cs ≡ true → CanFinish (current_cmd cs)
unfolding current_cmd
CanFinish-current_cmd [] h = tt
CanFinish-current_cmd (c ∷ cs) h =
    CanFinish-current_at c.state c cs refl h (CanFinish-current_cmd cs)

finish_cmd-serial :
    (env : Env) (client : HttpClient) (clients : List HttpClient) (before : List Command)
    (cmd : Command) (after : List Command) (lw : Lw)
    → CanFinish (running before cmd after)
    → AllResting clients
    → KeepsSerial (finish_cmd env client clients before cmd after lw)
unfolding finish_cmd
finish_cmd-serial env client clients before cmd after lw can rests =
    let done = can (executed cmd) refl in
    Ensures-mono (λ lw' h. IsSerial-AllResting lw'.http h)
      (elim (Bool-cases client.timed_out) [
        | inl late ↦ rw (late, finish_cmd) (returns _ (done, rests))
        | inr timely ↦
            rw (timely, finish_cmd)
              (context_manager_event-rests env cmd.def.type (some (executed cmd)) _ (done, rests))
      ])

by_code-serial :
    (env : Env) (client : HttpClient) (clients : List HttpClient) (before : List Command)
    (cmd : Command) (after : List Command) (lw : Lw) (code : CmdResCode)
    → CanFinish (running before cmd after)
    → AllResting clients
    → IsSerial lw.http
    → KeepsSerial (elim code [
      | cmd_res_timeout ↦
          finish_cmd env
            (with_timeout (not (is_delay cmd.def.type) || client.timed_out) client)
            clients
            before
            cmd
            after
            lw
      | cmd_res_ok ↦ finish_cmd env client clients before cmd after lw
      | cmd_res_waiting ↦ ok lw
      | cmd_res_ignore ↦ ok lw
    ])
by_code-serial env client clients before cmd after lw cmd_res_timeout can rests h =
    finish_cmd-serial env (with_timeout _ client) clients before cmd after lw can rests
by_code-serial env client clients before cmd after lw cmd_res_ok can rests h =
    finish_cmd-serial env client clients before cmd after lw can rests
by_code-serial env client clients before cmd after lw cmd_res_waiting can rests h = returns lw h
by_code-serial env client clients before cmd after lw cmd_res_ignore can rests h = returns lw h

-- The first client leaves the queue, and the others stay.
pub free_first :
    (client : HttpClient) (clients : List HttpClient) (lw : Lw)
    → lw.http ≡ client ∷ clients
    → free_http_client client lw ≡ ok (record (close_client client lw) { http = clients })
unfolding free_http_client stailq_remove
free_first client clients lw e = rw (e, stailq_remove) (rw (==_refl client.id))

finish_client-serial :
    (env : Env) (client : HttpClient) (clients : List HttpClient) (lw : Lw)
    → lw.http ≡ client ∷ clients
    → AllResting clients
    → KeepsSerial (finish_client env client lw)
unfolding finish_client
finish_client-serial env client clients lw e rests =
    Ensures-mono (λ lw' h. IsSerial-AllResting lw'.http h)
      (elim (Bool-cases client.local) [
        | inr remote ↦
            rw (remote, finish_client)
              (Ensures->>= (Ensures-any (reply_get_cmds client.cmdq)) λ json _.
                rw
                  (free_first client clients
                    (http_client_write client (c_string json) (
                      http_client_write client (if client.timed_out then http_timeout else http_ok)
                        lw))
                    e)
                  (returns _ rests))
        | inl here ↦
            rw (here, finish_client)
              (rw (free_first client clients lw e)
                (elim (Bool-cases (client.timed_out && client.restore_context)) [
                  | inl again ↦ rw again (context_manager_event-rests env cmd_reset none _ rests)
                  | inr over ↦ rw over (returns _ rests)
                ]))
      ])

by_current-serial :
    (env : Env) (client : HttpClient) (clients : List HttpClient) (lw : Lw) (n : Current)
    → CanFinish n
    → lw.http ≡ client ∷ clients
    → AllResting clients
    → IsSerial lw.http
    → KeepsSerial (elim n [
      | waiting ↦ ok lw
      | finished ↦ finish_client env client lw
      | running before cmd after ↦ watch_cmd env client clients before cmd after lw
      | failed before cmd after ↦ recover_cmd client clients before cmd after lw
    ])
unfolding watch_cmd
by_current-serial env client clients lw waiting can e rests h = returns lw h
by_current-serial env client clients lw finished can e rests h =
    finish_client-serial env client clients lw e rests
by_current-serial env client clients lw (running before cmd after) can e rests h =
    Ensures->>= (Ensures-any (process cmd.def.process_cmd cmd env.now))
      λ code _. by_code-serial env client clients before cmd after lw code can rests h
by_current-serial env client clients lw (failed before cmd after) can e rests h = absurd can

process_failed-serial :
    (client : HttpClient) (clients : List HttpClient) (lw : Lw)
    → lw.http ≡ client ∷ clients
    → AllResting clients
    → KeepsSerial (process_failed client lw)
unfolding process_failed
process_failed-serial client clients lw e rests =
    Ensures->>= (Ensures-any (assert (not client.local))) λ _ _.
      rw (free_first client clients (http_client_write client (c_string client.error_resp) lw) e)
        (returns _ (IsSerial-AllResting clients rests))

by_state-serial :
    (s : HttpClientState) (env : Env) (client : HttpClient) (clients : List HttpClient) (lw : Lw)
    → lw.http ≡ client ∷ clients
    → in_order client.cmdq ≡ true
    → AllResting clients
    → KeepsSerial (by_state s env client clients lw)
unfolding process_complete
by_state-serial http_client_request_complete env client clients lw e order rests =
    by_current-serial env client clients lw (current_cmd client.cmdq)
      (CanFinish-current_cmd client.cmdq order) e rests (rw e (order, rests))
by_state-serial http_client_active env client clients lw e order rests =
    returns lw (rw e (order, rests))
by_state-serial http_client_error env client clients lw e order rests =
    process_failed-serial client clients lw e rests
by_state-serial http_client_disconnected env client clients lw e order rests =
    process_failed-serial client clients lw e rests

by_first-serial :
    (env : Env) (lw : Lw) (cs : List HttpClient)
    → lw.http ≡ cs
    → IsSerial cs
    → KeepsSerial (process_http_clients env lw)
unfolding process_http_clients
by_first-serial env lw [] e h = rw (e, process_http_clients) (returns lw (rw e tt))
by_first-serial env lw (client ∷ clients) e h =
    rw (e, process_http_clients) (by_state-serial client.state env client clients lw e h.0 h.1)

-- A command that is done leaves no command executing, and so does a client that is done.
pub process_http_clients-serial :
    (env : Env) (lw : Lw) → IsSerial lw.http → KeepsSerial (process_http_clients env lw)
process_http_clients-serial env lw h = by_first-serial env lw lw.http refl h
