-- ===== src/Process/Serving.antt =====
-- When the process of src/main.c comes to its event loop, and who can reach its sockets then.
use lorawanatd_canarin.Base.{
  ℕ, ◌≡◌, refl, sym, subst, ◌∙◌, Bool, true, false, ◌||◌, List, [], ◌∷◌, Option, none, some, Bytes,
  codes, All, arith, ok, >>=-ok, Bool-cases, Option-cases, inl, inr, if◌then◌else◌,
}
use lorawanatd_canarin.LwanContext.{LwanContext, test_bit, set_bit}
use lorawanatd_canarin.LwanContext.Bits.{test_bit-set_bit_same}
use lorawanatd_canarin.State.{Lw}
use lorawanatd_canarin.Clients.{create_http_client, free_http_client, stailq_remove}
use lorawanatd_canarin.Context.File.{read_context, reset_lwan_ctx}
use lorawanatd_canarin.Context.Firmware.{restore_firmware_context, restore_cmds, start_or_free}
use lorawanatd_canarin.Context.Event.{context_manager_init}
use lorawanatd_canarin.Daemon.Steps.{boot}
use lorawanatd_canarin.Daemon.Restore.{boot-Restores}
use lorawanatd_canarin.Process.Options.{
  Config, no_config, getopt, letters, take_opts, is_accepted, parse_opts, kind, operand,
}
use lorawanatd_canarin.Process.Sockets.{
  Calls, Listener, Address, inaddr_any, inaddr_loopback, nonblock_bit, set_nonblock_sock,
  init_tcp_listen_sock,
}
use lorawanatd_canarin.Process.Main.{
  Host, http_port, push_port, init, exit_failure, dispatch, set_up, after_opts, main,
}
use lorawanatd_canarin.Process.Chosen.{Fits, chosen, any_remote, take_opts-chosen}

-- The start of the daemon itself always comes to an end, whatever file there is.
boot_ends : (file : Option LwanContext) → (lw : Lw) × (boot file ≡ ok lw)
unfolding boot context_manager_init read_context reset_lwan_ctx restore_firmware_context
    restore_cmds start_or_free free_http_client stailq_remove create_http_client
boot_ends none = (_, refl)
boot_ends (some ctx) = let (lw, e, same, restores, none_left) = boot-Restores ctx in (lw, e)

parse_opts-chosen :
    (argv : List Bytes)
    → All Fits (getopt argv)
    → parse_opts no_config argv
      ≡ ok (chosen (getopt argv) no_config, is_accepted (chosen (getopt argv) no_config))
unfolding parse_opts
parse_opts-chosen argv h =
    >>=-ok (take_opts (getopt argv) no_config) (λ cfg. ok (cfg, is_accepted cfg))
      (take_opts-chosen (getopt argv) no_config h)

main-after_opts :
    (h : Host) (argv : List Bytes)
    → All Fits (getopt argv)
    → main h argv
      ≡ after_opts h (chosen (getopt argv) no_config) (is_accepted (chosen (getopt argv) no_config))
unfolding main
main-after_opts h argv fits =
    >>=-ok (parse_opts no_config argv) (λ r. after_opts h r.0 r.1) (parse_opts-chosen argv fits)

set_up-dispatch :
    (h : Host) (cfg cfg' : Config) (http http' push push' : Listener) (lw : Lw)
    → set_up h cfg http push ≡ ok (dispatch cfg' http' push' lw)
    → (cfg' ≡ cfg)
      × (http' ≡ http)
      × (push' ≡ push)
      × (h.uart_opens cfg.uart_file ≡ true)
      × (boot (h.context_file cfg.filename) ≡ ok lw)
unfolding set_up
set_up-dispatch h cfg cfg' http http' push push' lw e =
    elim (Bool-cases (h.uart_opens cfg.uart_file)) [
      | inl opens ↦ let (lw₀, booted) = boot_ends (h.context_file cfg.filename) in ground arith
      | inr shut ↦ absurd (ground arith)
    ]

init-some :
    (h : Host) (cfg : Config) (http push : Listener)
    → init h cfg ≡ some (http, push)
    → (init_tcp_listen_sock h.http_calls http_port cfg.remote_mode ≡ some http)
      × (init_tcp_listen_sock h.push_calls push_port cfg.remote_mode ≡ some push)
      × (h.regcomp ≡ true)
unfolding init
init-some h cfg http push e = ground arith

-- Whom a socket of the daemon listens to, without waiting.
abbrev pub ListensTo : Address → Listener → Type 0
ListensTo address l = (l.address ≡ address) × (test_bit l.flags nonblock_bit ≡ true)

init_tcp_listen_sock-some :
    (calls : Calls) (port : ℕ) (remote : Bool) (l : Listener)
    → init_tcp_listen_sock calls port remote ≡ some l
    → ListensTo (if remote then inaddr_any else inaddr_loopback) l × (l.port ≡ port)
unfolding init_tcp_listen_sock set_nonblock_sock
init_tcp_listen_sock-some calls port remote l e = elim (Option-cases calls.getfl) [
  | inl none' ↦ absurd (ground arith)
  | inr (flags, got) ↦
      let bit : test_bit (set_bit flags nonblock_bit) nonblock_bit ≡ true =
        test_bit-set_bit_same flags nonblock_bit in
      ground arith
]

after_opts-dispatch :
    (h : Host) (cfg cfg' : Config) (b : Bool) (http push : Listener) (lw : Lw)
    → after_opts h cfg b ≡ ok (dispatch cfg' http push lw)
    → (b ≡ true)
      × (init h cfg ≡ some (http, push))
      × (cfg' ≡ cfg)
      × (h.uart_opens cfg.uart_file ≡ true)
      × (boot (h.context_file cfg.filename) ≡ ok lw)
unfolding after_opts
after_opts-dispatch h cfg cfg' b http push lw e = elim (Option-cases (init h cfg)) [
  | inl none' ↦ absurd (ground arith)
  | inr ((http₀, push₀), inits) ↦
      ground (arith, set_up-dispatch h cfg cfg' http₀ http push₀ push lw)
]

-- When the process is in its event loop, every name having fit into its buffer, the options that
-- count are the last ones, and its two sockets, on the ports 5555 and 6666, never wait and listen
-- to other machines exactly if `-r` was among the options; the daemon has started from the file.
pub main-ListensTo :
    (h : Host) (argv : List Bytes) (cfg : Config) (http push : Listener) (lw : Lw)
    → All Fits (getopt argv)
    → main h argv ≡ ok (dispatch cfg http push lw)
    → (let address = if any_remote (getopt argv) then inaddr_any else inaddr_loopback in
        (cfg ≡ chosen (getopt argv) no_config)
        × (ListensTo address http × (http.port ≡ 5555))
        × (ListensTo address push × (push.port ≡ 6666))
        × (boot (h.context_file cfg.filename) ≡ ok lw))
main-ListensTo h argv cfg http push lw fits e =
    let chose = chosen (getopt argv) no_config in
    let (accepted, inits, same, opens, booted) =
      after_opts-dispatch h chose cfg (is_accepted chose) http push lw
        (sym (main-after_opts h argv fits) ∙ e) in
    let (listens, listens', compiled) = init-some h chose http push inits in
    let remote : (any_remote (getopt argv) || false) ≡ any_remote (getopt argv) = ground arith in
    (
      same,
      subst (λ r. ListensTo (if r then inaddr_any else inaddr_loopback) http × (http.port ≡ 5555))
          remote (init_tcp_listen_sock-some h.http_calls http_port chose.remote_mode http listens),
      subst (λ r. ListensTo (if r then inaddr_any else inaddr_loopback) push × (push.port ≡ 6666))
          remote (init_tcp_listen_sock-some h.push_calls push_port chose.remote_mode push listens'),
      subst (λ c. boot (h.context_file c.filename) ≡ ok lw) (sym same) booted,
    )

-- Started as the README says, with `-d` and the device, the process fails at once: `-d` is no
-- option, and neither the device nor the context file is named.
main-usage :
    (h : Host) (device : Bytes)
    → kind device ≡ operand
    → main h (codes "-d" ∷ device ∷ []) ≡ ok exit_failure
unfolding main parse_opts getopt letters take_opts is_accepted after_opts
main-usage h device e = rw (e, getopt) refl
