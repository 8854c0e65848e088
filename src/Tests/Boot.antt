-- ===== src/Tests/Boot.antt =====
-- The daemon from its start with a saved context, through one round of its timer, in which the
-- restore of that context is started, to a client that connects.
use lorawanatd_canarin.Base.{◌≡◌, refl, [], ◌∷◌, codes, some, ok, strncmp_eq, c_prefix, strncpy}
use lorawanatd_canarin.State.{Lw, uart_written}
use lorawanatd_canarin.Uart.Order.{IsSerial}
use lorawanatd_canarin.Daemon.Steps.{started, next, timer, http_accept, boot, cb_timer}
use lorawanatd_canarin.Daemon.Serial.{Reach-IsSerial}
use lorawanatd_canarin.Daemon.Restore.{saved_types, Restores, queued, boot-Restores}
use lorawanatd_canarin.Http.Read.{on_accept_http}
use lorawanatd_canarin.Command.Table.{cmd_def_list}
use lorawanatd_canarin.Command.Make.{make_cmd, find_def, is_wanted}
use lorawanatd_canarin.Context.Firmware.{restore_cmds, start_or_free, restore_firmware_context}
use lorawanatd_canarin.Context.File.{reset_lwan_ctx, read_context}
use lorawanatd_canarin.Context.Event.{context_manager_init}
use lorawanatd_canarin.Clients.{
  create_http_client, remove_disconnected_http_clients, remove_disconnected_from,
}
use lorawanatd_canarin.Push.{remove_disconnected_push_clients, close_disconnected, keep_connected}
use lorawanatd_canarin.Http.Process.{process_http_clients, process_complete, current_cmd}
use lorawanatd_canarin.Uart.Run.{process_cmd, next_cmd, start_cmd}
use lorawanatd_canarin.Uart.Rx.{uart_io}
use lorawanatd_canarin.Uart.Tx.{uart_write, uart_dev_write}
use lorawanatd_canarin.Command.Construct.{construct, context_restore_text}
use lorawanatd_canarin.Tests.Samples.{calm, no_phr, no_jsmn, saved_ctx, or_blank}

abbrev at_start : Lw
at_start = or_blank (boot (some saved_ctx))

abbrev after_round : Lw
after_round = or_blank (cb_timer (calm 3) [] at_start)

boot-saved : boot (some saved_ctx) ≡ ok at_start
unfolding boot context_manager_init reset_lwan_ctx read_context restore_firmware_context
    restore_cmds start_or_free create_http_client make_cmd find_def is_wanted cmd_def_list
    strncmp_eq
boot-saved = refl

cb_timer-saved : cb_timer (calm 3) [] at_start ≡ ok after_round
unfolding boot context_manager_init reset_lwan_ctx read_context restore_firmware_context
    restore_cmds start_or_free create_http_client make_cmd find_def is_wanted cmd_def_list
    strncmp_eq cb_timer remove_disconnected_http_clients remove_disconnected_from
    remove_disconnected_push_clients close_disconnected keep_connected process_http_clients
    process_complete current_cmd process_cmd next_cmd start_cmd construct context_restore_text
    c_prefix strncpy uart_write uart_io uart_dev_write
cb_timer-saved = refl

-- The text of the saved context has gone to the board, and the enter key waits behind it.
after_round-sent :
    (after_round.effects ≡ uart_written (codes "AT+CTX=1:aabb") ∷ [])
    × (after_round.uart.tx_q ≡ codes "\r\n" ∷ [])
unfolding boot context_manager_init reset_lwan_ctx read_context restore_firmware_context
    restore_cmds start_or_free create_http_client make_cmd find_def is_wanted cmd_def_list
    strncmp_eq cb_timer remove_disconnected_http_clients remove_disconnected_from
    remove_disconnected_push_clients close_disconnected keep_connected process_http_clients
    process_complete current_cmd process_cmd next_cmd start_cmd construct context_restore_text
    c_prefix strncpy uart_write uart_io uart_dev_write
after_round-sent = (refl, refl)

Reach-IsSerial_example : IsSerial (on_accept_http 9 after_round).http
Reach-IsSerial_example = Reach-IsSerial {phr = no_phr} {jsmn = no_jsmn} (
    next (next (started (some saved_ctx) boot-saved) (timer (calm 3) [] cb_timer-saved))
      (http_accept 9))

boot-Restores_example :
    (lw : Lw) × (boot (some saved_ctx) ≡ ok lw)
    × (lw.lwan_ctx ≡ saved_ctx)
    × Restores saved_ctx (saved_types 7 0 saved_ctx) (queued lw.http)
    × (saved_types 7 0 saved_ctx ≡ [] → lw.http ≡ [])
boot-Restores_example = boot-Restores saved_ctx
