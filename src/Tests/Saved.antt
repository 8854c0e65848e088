-- ===== src/Tests/Saved.antt =====
-- Contexts and MAC parameters at concrete states.
use lorawanatd_canarin.Base.{
  ◌≡◌, refl, true, [], ◌∷◌, ◌++◌, codes, ok, unfinished, arith, strncmp_eq,
}
use lorawanatd_canarin.Command.Types.{Command, zeroed, cmd_executed, cmd_executing}
use lorawanatd_canarin.Command.Construct.{join_text}
use lorawanatd_canarin.State.{Lw, http_client_request_complete}
use lorawanatd_canarin.Context.File.{reset_lwan_ctx}
use lorawanatd_canarin.Context.Acquire.{acquire_loop, context_acquired, newline}
use lorawanatd_canarin.Context.Reset.{join_text-reset_lwan_ctx}
use lorawanatd_canarin.Context.Lines.{IsLine, lines_text, acquire_loop-unknown}
use lorawanatd_canarin.Daemon.Steps.{boot}
use lorawanatd_canarin.Daemon.Restore.{queued}
use lorawanatd_canarin.Daemon.Survives.{Sends, context_acquired-boot}
use lorawanatd_canarin.Tests.Samples.{
  calm, waiting_ctx, saved_ctx, with_http, client_of, cmd_of, status_def, join_def, saved_line,
}

abbrev waiting_lw : Lw
waiting_lw = with_http (client_of 3 http_client_request_complete [] ∷ []) waiting_ctx

abbrev joined : Command
joined = cmd_of join_def zeroed cmd_executed (codes "+EVT:JOINED\r\n")

abbrev settled_lw : Lw
settled_lw = with_http (client_of 3 http_client_request_complete (joined ∷ []) ∷ []) saved_ctx

saved_line-IsLine : IsLine saved_line
unfolding strncmp_eq
saved_line-IsLine = record {
  unbroken = ground arith;
  clean = ground arith;
  short = omega arith;
  known = λ e. refl;
}

answer_ok-IsLine : IsLine (codes "OK")
unfolding strncmp_eq
answer_ok-IsLine = record {
  unbroken = ground arith;
  clean = ground arith;
  short = omega arith;
  known = λ e. absurd (cc);
}

abbrev answer : Command
answer = cmd_of status_def zeroed cmd_executing (lines_text (saved_line ∷ codes "OK" ∷ []))

acquire_loop-unknown_example :
    acquire_loop 1000 40 0 (codes "+CTX=7:aa" ++ (newline ++ [])) saved_ctx ≡ unfinished
unfolding strncmp_eq
acquire_loop-unknown_example =
    acquire_loop-unknown 1000 0 40 (codes "+CTX=7:aa") [] saved_ctx (ground arith) (omega arith)
      refl refl (omega arith)

context_acquired-boot_example :
    (saved : Lw) × (begun : Lw) × (context_acquired (calm 9) answer settled_lw ≡ ok saved)
    × (boot saved.file ≡ ok begun)
    × Sends begun.lwan_ctx (codes "AT" ++ saved_line) (queued begun.http)
unfolding strncmp_eq
context_acquired-boot_example =
    context_acquired-boot (calm 9) answer settled_lw [] saved_line (codes "OK" ∷ []) refl
      (saved_line-IsLine, (answer_ok-IsLine, tt)) refl ((λ e. absurd (cc)), tt) (refl, refl) refl

join_text-reset_lwan_ctx_example :
    join_text (reset_lwan_ctx true waiting_lw).lwan_ctx joined ≡ ok (codes "AT+JOIN=0")
join_text-reset_lwan_ctx_example = join_text-reset_lwan_ctx true waiting_lw joined (ground arith)
