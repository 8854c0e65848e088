-- ===== src/Tests/Reached.antt =====
-- States that the daemon reaches: a client that goes away, and one that joins.
use lorawanatd_canarin.Base.{
  ◌≡◌, refl, true, [], ◌∷◌, ◌++◌, Bytes, codes, c_string, none, Option, ok, fault, Outcome,
  strncmp_eq, c_prefix, strncpy, print_u, strstr, starts_with, inr, arith, drop,
}
use lorawanatd_canarin.LwanContext.{LwanContext}
use lorawanatd_canarin.State.{Lw, Env, HttpClient, http_client_active}
use lorawanatd_canarin.Command.Types.{
  Command, cmd_executing, cmd_force_update, cmd_internal, construct_force_update_cmd,
  wait_for_good_timeout, null_async, zeroed,
}
use lorawanatd_canarin.Daemon.Steps.{
  Reach, started, next, timer, http_accept, http_read, boot, cb_timer,
}
use lorawanatd_canarin.Daemon.Moves.{Reach-Moves, at_start}
use lorawanatd_canarin.Daemon.Safe.{
  Reach-remove_disconnected, Reach-process_failed, Reach-join_faults, turned_away,
}
use lorawanatd_canarin.Sessions.{Moves}
use lorawanatd_canarin.Sessions.View.{view}
use lorawanatd_canarin.Push.{
  ReadResult, end_of_file, received, remove_disconnected_push_clients, close_disconnected,
  keep_connected,
}
use lorawanatd_canarin.Http.Route.{get_action_from_http_request}
use lorawanatd_canarin.Http.Read.{on_accept_http, on_read_http}
use lorawanatd_canarin.Clients.{
  create_http_client, remove_disconnected_http_clients, remove_disconnected_from,
}
use lorawanatd_canarin.Clients.Removal.{connected}
use lorawanatd_canarin.Command.Table.{cmd_def_list}
use lorawanatd_canarin.Util.Contains.{is_buffer_contains}
use lorawanatd_canarin.Uart.Async.{run_async_cmd}
use lorawanatd_canarin.Command.Queue.{set_active_cmd_uart_buf}
use lorawanatd_canarin.Command.Make.{make_cmd, find_def, is_wanted}
use lorawanatd_canarin.Command.Construct.{construct, join_text, get_epoc_timeout}
use lorawanatd_canarin.Command.Wait.{process}
use lorawanatd_canarin.Context.Firmware.{restore_cmds, start_or_free, restore_firmware_context}
use lorawanatd_canarin.Context.File.{reset_lwan_ctx, read_context}
use lorawanatd_canarin.Context.Event.{context_manager_init}
use lorawanatd_canarin.Http.Process.{process_http_clients, process_complete, current_cmd}
use lorawanatd_canarin.Http.Request.{PhrParser, complete, parse_http_buf, is_named}
use lorawanatd_canarin.Uart.Run.{process_cmd, next_cmd, start_cmd}
use lorawanatd_canarin.Uart.Rx.{uart_io}
use lorawanatd_canarin.Uart.Tx.{uart_write, uart_dev_write}
use lorawanatd_canarin.Tests.Samples.{calm, no_phr, no_jsmn, or_blank, client_of}

abbrev or_client : Outcome HttpClient → HttpClient
or_client (ok c) = c
or_client _ = client_of 0 http_client_active []

-- The callbacks, with all that a run of them calls.
unfoldable run_boot : Option LwanContext → Outcome Lw
unfolding boot context_manager_init reset_lwan_ctx read_context restore_firmware_context
    restore_cmds start_or_free create_http_client
run_boot = boot

unfoldable run_read : PhrParser → ReadResult → HttpClient → Outcome HttpClient
unfolding on_read_http parse_http_buf is_named strncmp_eq make_cmd find_def is_wanted cmd_def_list
    get_action_from_http_request
run_read phr = on_read_http phr no_jsmn

unfoldable run_timer : Env → Bytes → Lw → Outcome Lw
unfolding cb_timer remove_disconnected_http_clients remove_disconnected_from
    remove_disconnected_push_clients close_disconnected keep_connected process_http_clients
    process_complete current_cmd process_cmd next_cmd start_cmd construct join_text c_prefix strncpy
    print_u uart_write uart_io uart_dev_write process is_buffer_contains strstr starts_with
    get_epoc_timeout run_async_cmd cmd_def_list set_active_cmd_uart_buf c_string
run_timer = cb_timer

abbrev empty : Lw
empty = or_blank (boot none)

boot-empty : boot none ≡ ok empty
unfolding run_boot
boot-empty = refl

abbrev connecting : HttpClient
connecting = create_http_client empty 9

abbrev gone : HttpClient
gone = or_client (on_read_http no_phr no_jsmn end_of_file connecting)

abbrev after_gone : Lw
after_gone = record (on_accept_http 9 empty) { http = [] ++ gone ∷ [] }

reach-gone : Reach no_phr no_jsmn after_gone
unfolding run_boot run_read on_accept_http
reach-gone =
    next (next (started none boot-empty) (http_accept 9))
      (http_read [] connecting gone [] end_of_file refl refl tt refl)

Reach-remove_disconnected_example :
    (lw' : Lw) × (remove_disconnected_http_clients after_gone ≡ ok lw')
    × (lw'.http ≡ connected after_gone.http)
Reach-remove_disconnected_example = Reach-remove_disconnected reach-gone

Reach-process_failed_example :
    process_http_clients (calm 3) after_gone ≡ ok (turned_away gone [] after_gone)
unfolding run_boot run_read
Reach-process_failed_example = Reach-process_failed reach-gone (calm 3) gone [] refl (inr refl)

-- A client that asks for a force update, and the round in which that is started.
abbrev update_phr : PhrParser
update_phr = λ text last. record {
  pret = complete 30;
  method = text;
  method_len = 3;
  path = drop 4 text;
  path_len = 13;
  headers = [];
}

abbrev update_bytes : Bytes
update_bytes = codes "GET /force_update HTTP/1.1\r\n\r\n"

abbrev asking : HttpClient
asking = or_client (on_read_http update_phr no_jsmn (received update_bytes) connecting)

abbrev asked : Lw
asked = record (on_accept_http 9 empty) { http = [] ++ asking ∷ [] }

reach-asked : Reach update_phr no_jsmn asked
unfolding run_boot run_read on_accept_http
reach-asked =
    next (next (started none boot-empty) (http_accept 9))
      (http_read [] connecting asking [] (received update_bytes) refl refl (omega arith) refl)

-- The command answers by itself.
abbrev updating : Command
updating = record {
  def = record {
    type = cmd_force_update;
    group = cmd_internal;
    token = codes "force_update";
    cmd = codes "FORCE_UPDATE";
    construct_cmd = construct_force_update_cmd;
    process_cmd = wait_for_good_timeout;
    async_cmd = null_async;
    local_state = true;
  };
  epoc_timeout = 0;
  timeout = 1;
  param = zeroed;
  buf = codes "\r\nOK\r\n";
  state = cmd_executing;
}

abbrev updating_client : HttpClient
updating_client = record asking { cmdq = updating ∷ [] }

abbrev updating_lw : Lw
updating_lw = record asked {
  http = updating_client ∷ [];
  uart = record { buf = codes "\r\nOK\r\n"; tx_q = [] };
}

cb_timer-asked : cb_timer (calm 3) [] asked ≡ ok updating_lw
unfolding run_boot run_read run_timer on_accept_http
cb_timer-asked = refl

reach-updating : Reach update_phr no_jsmn updating_lw
reach-updating = next reach-asked (timer (calm 3) [] cb_timer-asked)

Reach-Moves_example : Moves at_start (view asked) × Moves (view asked) (view updating_lw)
Reach-Moves_example = Reach-Moves reach-asked (timer (calm 3) [] cb_timer-asked)

Reach-join_faults_example : process_http_clients (calm 4) updating_lw ≡ fault
unfolding run_boot run_read run_timer on_accept_http
Reach-join_faults_example =
    Reach-join_faults reach-updating (calm 4) updating_client [] refl [] updating [] refl refl refl
      (inr refl) refl (refl, (refl, (refl, (refl, (refl, (refl, tt))))))
