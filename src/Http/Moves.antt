-- ===== src/Http/Moves.antt =====
-- `process_http_clients` as moves of the clients: a command is done, or the first client leaves.
use lorawanatd_canarin.Base.{
  ◌≡◌, ◌≢◌, refl, sym, subst, ap, Bool, true, false, not, ◌&&◌, ◌||◌, List, [], ◌∷◌, ◌++◌, none,
  some, arith, c_string, ok, assert, returns, Ensures->>=, Ensures-any, Ensures-mono, Bool-cases,
  inl, inr, ◌⊎◌, All, if◌then◌else◌,
}
use lorawanatd_canarin.Command.Types.{
  Command, CmdState, CmdResCode, cmd_new, cmd_executing, cmd_executed, cmd_error, cmd_res_ok,
  cmd_res_timeout, cmd_res_waiting, cmd_res_ignore, cmd_reset,
}
use lorawanatd_canarin.Command.Wait.{process}
use lorawanatd_canarin.State.{
  Lw, Env, HttpClient, HttpClientState, http_client_error, http_client_disconnected,
  http_client_active, http_client_request_complete,
}
use lorawanatd_canarin.Clients.{http_client_write}
use lorawanatd_canarin.Uart.Run.{with_first}
use lorawanatd_canarin.Context.Moves.{context_manager_event-Makes}
use lorawanatd_canarin.Http.Reply.{reply_get_cmds}
use lorawanatd_canarin.Http.Order.{free_first}
use lorawanatd_canarin.Http.Process.{
  Current, waiting, finished, running, failed, current_cmd, current_at, after_cmd, executed,
  finish_cmd, watch_cmd, recover_cmd, finish_client, process_complete, process_failed, by_state,
  process_http_clients, with_timeout, is_delay, http_ok, http_timeout,
}
use lorawanatd_canarin.Sessions
use lorawanatd_canarin.Sessions.{Move, stay, one, Moves-trans}
use lorawanatd_canarin.Sessions.Valid.{IsValid, Move-IsValid}
use lorawanatd_canarin.Sessions.View.{
  states, session, sessions, view, Makes, states-append, first-IsFine,
}

-- Where the walk stops at a command that is executing, all before it are done.
abbrev Stops : List Command → Current → Type 0
Stops cs waiting = Unit
Stops cs finished = All (λ s. s ≡ cmd_executed) (states cs)
Stops cs (running before cmd after) =
    (states cs ≡ states before ++ cmd_executing ∷ states after)
    × All (λ s. s ≡ cmd_executed) (states before)
Stops cs (failed before cmd after) = ⊥

Stops-after_cmd :
    (c : Command) (cs : List Command) (n : Current)
    → c.state ≡ cmd_executed
    → Stops cs n
    → Stops (c ∷ cs) (after_cmd c n)
Stops-after_cmd c cs waiting done h = tt
Stops-after_cmd c cs finished done h = (done, h)
Stops-after_cmd c cs (running before cmd after) done h = (ap (◌∷◌ c.state) h.0, (done, h.1))
Stops-after_cmd c cs (failed before cmd after) done h = h

Stops-current_at :
    (s : CmdState) (c : Command) (cs : List Command)
    → c.state ≡ s
    → c.state ≢ cmd_error
    → Stops cs (current_cmd cs)
    → Stops (c ∷ cs) (current_at s c cs (current_cmd cs))
Stops-current_at cmd_new c cs e good h = tt
Stops-current_at cmd_executing c cs e good h = (ap (λ s. s ∷ states cs) e, tt)
Stops-current_at cmd_executed c cs e good h = Stops-after_cmd c cs (current_cmd cs) e h
Stops-current_at cmd_error c cs e good h = absurd (good e)

Stops-current_cmd :
    (cs : List Command) → All (λ s. s ≢ cmd_error) (states cs) → Stops cs (current_cmd cs)
unfolding current_cmd
Stops-current_cmd [] h = tt
Stops-current_cmd (c ∷ cs) h = Stops-current_at c.state c cs refl h.0 (Stops-current_cmd cs h.1)

-- The first client of the queue, which a section of lemmas is about.
module _ (client : HttpClient) (clients : List HttpClient) (lw : Lw)
    (first : lw.http ≡ client ∷ clients) (v : IsValid (view lw)) where
  finish_cmd-Makes :
      (env : Env) (timed_out : Bool) (before : List Command) (cmd : Command) (after : List Command)
      → client.state ≡ http_client_request_complete
      → Stops client.cmdq (running before cmd after)
      → Makes lw (finish_cmd env (with_timeout timed_out client) clients before cmd after lw)
  unfolding finish_cmd
  finish_cmd-Makes env timed_out before cmd after complete stops = by_late timed_out
    where
      done : Move (view lw) (view (with_first client clients (before ++ executed cmd ∷ after) lw))
      done =
          Sessions.finish (session client) (sessions clients) (states before) (states after)
            complete stops.1 stops.0 (rw first refl)
            (rw (states-append before (executed cmd ∷ after)) refl) refl

      by_late :
          (b : Bool) → Makes lw (finish_cmd env (with_timeout b client) clients before cmd after lw)
      by_late true = returns _ (one done)
      by_late false =
          Ensures-mono (λ lw' ms. Moves-trans (one done) ms)
            (context_manager_event-Makes env cmd.def.type (some (executed cmd)) _
              (Move-IsValid done v))

  by_code-Makes :
      (env : Env) (before : List Command) (cmd : Command) (after : List Command) (code : CmdResCode)
      → client.state ≡ http_client_request_complete
      → Stops client.cmdq (running before cmd after)
      → Makes lw (elim code [
        | cmd_res_timeout ↦
            finish_cmd env
              (with_timeout (not (is_delay cmd.def.type) || client.timed_out) client)
              clients
              before
              cmd
              after
              lw
        | cmd_res_ok ↦ finish_cmd env client clients before cmd after lw
        | cmd_res_waiting ↦ ok lw
        | cmd_res_ignore ↦ ok lw
      ])
  by_code-Makes env before cmd after cmd_res_timeout complete stops =
      finish_cmd-Makes env _ before cmd after complete stops
  by_code-Makes env before cmd after cmd_res_ok complete stops =
      finish_cmd-Makes env client.timed_out before cmd after complete stops
  by_code-Makes env before cmd after cmd_res_waiting complete stops = returns lw stay
  by_code-Makes env before cmd after cmd_res_ignore complete stops = returns lw stay

  finish_client-Makes :
      (env : Env)
      → client.state ≡ http_client_request_complete
      → Stops client.cmdq finished
      → Makes lw (finish_client env client lw)
  unfolding finish_client
  finish_client-Makes env complete done = elim (Bool-cases client.local) [
    | inr remote ↦
        rw (remote, finish_client)
          (Ensures->>= (Ensures-any (reply_get_cmds client.cmdq)) λ json _.
            rw
              (free_first client clients
                (http_client_write client (c_string json) (
                  http_client_write client (if client.timed_out then http_timeout else http_ok) lw))
                first)
              (rw remote (returns _ (one replied))))
    | inl here ↦
        rw (here, finish_client)
          (rw (free_first client clients lw first) (
            rw here (elim (Bool-cases (client.timed_out && client.restore_context)) [
              | inl again ↦ rw again (
                  Ensures-mono (λ lw' ms. Moves-trans (one replied) ms)
                    (context_manager_event-Makes env cmd_reset none _ (Move-IsValid replied v)))
              | inr over ↦ rw over (returns _ (one replied))
            ])))
  ]
    where
      replied : Move (view lw) (view (record lw { http = clients }))
      replied =
          Sessions.reply (session client) (sessions clients) complete done (rw first refl) refl refl

  process_failed-Makes :
      (client.state ≡ http_client_error) ⊎ (client.state ≡ http_client_disconnected)
      → client.local ≡ false
      → Makes lw (process_failed client lw)
  unfolding process_failed
  process_failed-Makes gone remote = Ensures->>= (Ensures-any (assert (not client.local))) λ _ _.
      rw
        (free_first client clients (http_client_write client (c_string client.error_resp) lw) first)
        (rw remote (
          returns _ (
            one (
              Sessions.leave [] (session client) (sessions clients) remote gone (rw first refl) refl
                refl))))

  by_current-Makes :
      (env : Env) (n : Current)
      → client.state ≡ http_client_request_complete
      → Stops client.cmdq n
      → Makes lw (elim n [
        | waiting ↦ ok lw
        | finished ↦ finish_client env client lw
        | running before cmd after ↦ watch_cmd env client clients before cmd after lw
        | failed before cmd after ↦ recover_cmd client clients before cmd after lw
      ])
  unfolding watch_cmd
  by_current-Makes env waiting complete stops = returns lw stay
  by_current-Makes env finished complete stops = finish_client-Makes env complete stops
  by_current-Makes env (running before cmd after) complete stops =
      Ensures->>= (Ensures-any (process cmd.def.process_cmd cmd env.now))
        λ code _. by_code-Makes env before cmd after code complete stops
  by_current-Makes env (failed before cmd after) complete stops = absurd stops

  -- Only a client that has connected can fail.
  pub failed_remote : client.state ≢ http_client_request_complete → client.local ≡ false
  failed_remote other = elim (first-IsFine lw client clients first v).2 [
    | inl remote ↦ remote
    | inr complete ↦ absurd (other complete)
  ]

  by_state-Makes :
      (s : HttpClientState) (env : Env)
      → client.state ≡ s
      → Makes lw (by_state s env client clients lw)
  unfolding process_complete
  by_state-Makes http_client_request_complete env e =
      by_current-Makes env (current_cmd client.cmdq) e
        (Stops-current_cmd client.cmdq (first-IsFine lw client clients first v).1)
  by_state-Makes http_client_active env e = returns lw stay
  by_state-Makes http_client_error env e =
      process_failed-Makes (inl e) (failed_remote (λ complete. cc))
  by_state-Makes http_client_disconnected env e =
      process_failed-Makes (inr e) (failed_remote (λ complete. cc))

pub process_http_clients-by_state :
    (env : Env) (client : HttpClient) (clients : List HttpClient) (lw : Lw)
    → lw.http ≡ client ∷ clients
    → process_http_clients env lw ≡ by_state client.state env client clients lw
unfolding process_http_clients
process_http_clients-by_state env client clients lw e = ground arith

process_http_clients-none :
    (env : Env) (lw : Lw) → lw.http ≡ [] → process_http_clients env lw ≡ ok lw
unfolding process_http_clients
process_http_clients-none env lw e = ground arith

by_first-Makes :
    (env : Env) (lw : Lw) (cs : List HttpClient)
    → lw.http ≡ cs
    → IsValid (view lw)
    → Makes lw (process_http_clients env lw)
by_first-Makes env lw [] e v =
    subst (Makes lw) (sym (process_http_clients-none env lw e)) (returns lw stay)
by_first-Makes env lw (client ∷ clients) e v =
    subst (Makes lw) (sym (process_http_clients-by_state env client clients lw e))
      (by_state-Makes client clients lw e v client.state env refl)

-- A round of `process_http_clients` is made of moves of the clients.
pub process_http_clients-Makes :
    (env : Env) (lw : Lw) → IsValid (view lw) → Makes lw (process_http_clients env lw)
process_http_clients-Makes env lw v = by_first-Makes env lw lw.http refl v
