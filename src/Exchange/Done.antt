-- ===== src/Exchange/Done.antt =====
-- A command that the board has answered is done.
use lorawanatd_canarin.Base.{
  ℕ, ◌≡◌, refl, ◌∙◌, true, false, List, [], ◌∷◌, ◌++◌, Bool, Bytes, Option, some, Outcome, ok,
  strstr, starts_with, arith,
}
use lorawanatd_canarin.Command.Types.{
  Command, cmd_new, cmd_executing, cmd_res_ok, wait_for_ok_or_timeout,
}
use lorawanatd_canarin.Command.Wait.{
  response, contains_any, wait_for_ok, wait_for_timeout, ok_or_timeout,
}
use lorawanatd_canarin.Util.Contains.{is_buffer_contains}
use lorawanatd_canarin.Command.Responses.{OneOccurs, ok_or_timeout_iff}
use lorawanatd_canarin.State.{Lw, Env, HttpClient, Effect, http_client_request_complete}
use lorawanatd_canarin.Context.Event.{context_manager_event}
use lorawanatd_canarin.Http.Process.{executed, finish_cmd, watch_cmd, process_http_clients}
use lorawanatd_canarin.Exchange.{during, AllExecuted}
use lorawanatd_canarin.Exchange.Received.{with_bytes}
use lorawanatd_canarin.Exchange.Started.{sent, Goes}
use lorawanatd_canarin.Exchange.Rounds.{process_http_clients-running, process-ok_or_timeout}

-- A new command that goes to the board with this text, waits for an answer or its timeout, and of
-- whose type the context manager takes no notice.
pub record Asks (lw : Lw) (now : ℕ) (cmd : Command) (text : Bytes) : Type 0 where
  pub new : cmd.state ≡ cmd_new
  pub unheard : cmd.buf ≡ []
  pub goes : Goes lw now cmd text
  pub waits : cmd.def.process_cmd ≡ wait_for_ok_or_timeout
  pub unnoticed :
      (env : Env) (done : Option Command) (lw' : Lw)
      → context_manager_event env cmd.def.type done lw' ≡ ok lw'

-- A command that has received nothing has not been answered.
contains_any-unheard : (cmd : Command) → cmd.buf ≡ [] → contains_any cmd response ≡ false
unfolding contains_any is_buffer_contains strstr starts_with
contains_any-unheard cmd e = rw (e, contains_any) refl

pub unheard-unanswered : (cmd : Command) → cmd.buf ≡ [] → ¬ OneOccurs response cmd
unfolding ok_or_timeout wait_for_ok wait_for_timeout
unheard-unanswered cmd e occurs =
    let missing : contains_any cmd response ≡ false = contains_any-unheard cmd e in
    let found : ok_or_timeout cmd 0 ≡ cmd_res_ok = (ok_or_timeout_iff cmd 0).1 occurs in
    ground arith

-- The command when it has been answered.
abbrev pub answered : ℕ → Command → Bytes → Command
answered now cmd answer = executed (with_bytes (sent now cmd) answer)

either_way :
    (b : Bool) (x : Lw) (y : Outcome Lw) → y ≡ ok x → elim b [ true ↦ ok x | false ↦ y ] ≡ ok x
either_way true x y e = refl
either_way false x y e = e

finish_cmd-unnoticed :
    (env : Env) (lw : Lw) (client : HttpClient) (clients : List HttpClient)
    (before after : List Command) (cmd : Command) (buf : Bytes) (q : List Bytes) (es : List Effect)
    → ((lw' : Lw) → context_manager_event env cmd.def.type (some (executed cmd)) lw' ≡ ok lw')
    → finish_cmd env
        (record client { cmdq = before ++ cmd ∷ after })
        clients
        before
        cmd
        after
        (during lw client clients (before ++ cmd ∷ after) buf q es)
      ≡ ok (during lw client clients (before ++ executed cmd ∷ after) [] q es)
unfolding finish_cmd
finish_cmd-unnoticed env lw client clients before after cmd buf q es unnoticed =
    either_way client.timed_out (during lw client clients (before ++ executed cmd ∷ after) [] q es)
      _ (unnoticed (during lw client clients (before ++ executed cmd ∷ after) [] q es))

module _ (lw : Lw) (client : HttpClient) (clients : List HttpClient) (before after : List Command)
    (complete : client.state ≡ http_client_request_complete) (done : AllExecuted before) where
  pub process_http_clients-answered :
      (env : Env) (cmd : Command) (buf : Bytes) (q : List Bytes) (es : List Effect)
      → cmd.state ≡ cmd_executing
      → cmd.def.process_cmd ≡ wait_for_ok_or_timeout
      → ((lw' : Lw) → context_manager_event env cmd.def.type (some (executed cmd)) lw' ≡ ok lw')
      → OneOccurs response cmd
      → process_http_clients env (during lw client clients (before ++ cmd ∷ after) buf q es)
        ≡ ok (during lw client clients (before ++ executed cmd ∷ after) [] q es)
  unfolding watch_cmd
  process_http_clients-answered env cmd buf q es active waits unnoticed occurs =
      process_http_clients-running lw client clients before after complete done env cmd buf q es
        active
      ∙ rw
          (
            process-ok_or_timeout cmd.def.process_cmd cmd env.now cmd_res_ok waits
                ((ok_or_timeout_iff cmd env.now).1 occurs),
            watch_cmd,
          )
          (finish_cmd-unnoticed env lw client clients before after cmd buf q es unnoticed)
