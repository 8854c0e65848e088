-- ===== src/Tests/Starting.antt =====
-- The process at concrete arguments.
use lorawanatd_canarin.Base.{◌≡◌, refl, true, ℕ, List, [], ◌∷◌, Bytes, codes, some, none, ok, arith}
use lorawanatd_canarin.State.{Lw}
use lorawanatd_canarin.Clients.{create_http_client}
use lorawanatd_canarin.Context.Firmware.{restore_cmds, start_or_free, restore_firmware_context}
use lorawanatd_canarin.Context.File.{reset_lwan_ctx, read_context}
use lorawanatd_canarin.Context.Event.{context_manager_init}
use lorawanatd_canarin.Daemon.Steps.{boot}
use lorawanatd_canarin.Process.Options.{
  opt_f, opt_r, Config, no_config, getopt, letters, take_opts, parse_opts, is_accepted,
}
use lorawanatd_canarin.Process.Sockets.{
  Calls, Listener, inaddr_any, init_tcp_listen_sock, set_nonblock_sock,
}
use lorawanatd_canarin.Process.Main.{Host, dispatch, main, after_opts, init, set_up}
use lorawanatd_canarin.Process.Chosen.{chosen, take_opts-chosen}
use lorawanatd_canarin.Process.Serving.{main-ListensTo, ListensTo}
use lorawanatd_canarin.Uart.Settings.{Termios, TermiosCalls}
use lorawanatd_canarin.Tests.Samples.{or_blank}

abbrev good_calls : ℕ → Calls
good_calls fd = record {
  socket = some fd;
  setsockopt = true;
  bind = true;
  listen = true;
  getfl = some 2;
  setfl = true;
}

abbrev host : Host
host = record {
  daemon = true;
  regcomp = true;
  http_calls = good_calls 3;
  push_calls = good_calls 4;
  uart_opens = λ name. true;
  context_file = λ name. none;
}

abbrev listener : ℕ → ℕ → Listener
listener fd port = record { fd = fd; address = inaddr_any; port = port; flags = 2050 }

-- Two devices are named, and the second one counts.
abbrev arguments : List Bytes
arguments =
    codes "-f" ∷ codes "/dev/ttyS0" ∷ codes "-rf/dev/ttyS1" ∷ codes "-c" ∷ codes "/tmp/ctx" ∷ []

abbrev config : Config
config = record {
  uart_file = codes "/dev/ttyS1";
  filename = codes "/tmp/ctx";
  baudrate = 0;
  remote_mode = true;
}

abbrev begun : Lw
begun = or_blank (boot none)

take_opts-chosen_example :
    take_opts (opt_f (codes "a") ∷ opt_r ∷ opt_f (codes "b") ∷ []) no_config
    ≡ ok (chosen (opt_f (codes "a") ∷ opt_r ∷ opt_f (codes "b") ∷ []) no_config)
take_opts-chosen_example =
    take_opts-chosen (opt_f (codes "a") ∷ opt_r ∷ opt_f (codes "b") ∷ []) no_config
      (omega arith, (tt, (omega arith, tt)))

main-runs : main host arguments ≡ ok (dispatch config (listener 3 5555) (listener 4 6666) begun)
unfolding main parse_opts getopt letters take_opts is_accepted after_opts init set_up
    init_tcp_listen_sock set_nonblock_sock boot context_manager_init reset_lwan_ctx read_context
    restore_firmware_context restore_cmds start_or_free create_http_client
main-runs = refl

main-ListensTo_example :
    (config ≡ config)
    × (ListensTo inaddr_any (listener 3 5555) × (◌≡◌ {A = ℕ} 5555 5555))
    × (ListensTo inaddr_any (listener 4 6666) × (◌≡◌ {A = ℕ} 6666 6666))
    × (boot none ≡ ok begun)
unfolding getopt
main-ListensTo_example =
    main-ListensTo host arguments config (listener 3 5555) (listener 4 6666) begun
      (omega arith, (tt, (omega arith, (omega arith, tt)))) main-runs

abbrev cooked : Termios
cooked = record {
  c_iflag = 1280;
  c_oflag = 5;
  c_cflag = 448;
  c_lflag = 35387;
  ispeed = 15;
  ospeed = 15;
  vmin = 1;
  vtime = 0;
}

abbrev tty_calls : TermiosCalls
tty_calls = record { tcgetattr = some cooked; tcsetattr = true }
