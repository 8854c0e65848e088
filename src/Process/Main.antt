-- ===== src/Process/Main.antt =====
-- `init` and `main` of src/main.c, up to the event loop.
use lorawanatd_canarin.Base.{
  ℕ, Bool, true, false, List, Option, none, some, Bytes, Outcome, ok, exited, ◌>>=◌,
}
use lorawanatd_canarin.LwanContext.{LwanContext}
use lorawanatd_canarin.State.{Lw}
use lorawanatd_canarin.Daemon.Steps.{boot}
use lorawanatd_canarin.Process.Options.{Config, no_config, parse_opts}
use lorawanatd_canarin.Process.Sockets.{Calls, Listener, init_tcp_listen_sock}

-- The machine on which the process starts: whether `daemon` and `regcomp` succeed, what the calls
-- for the two sockets return, whether the UART opens, and the context file of each name.
pub record Host : Type 0 where
  pub daemon : Bool
  pub regcomp : Bool
  pub http_calls : Calls
  pub push_calls : Calls
  pub uart_opens : Bytes → Bool
  pub context_file : Bytes → Option LwanContext

abbrev pub http_port : ℕ
http_port = 5555

abbrev pub push_port : ℕ
push_port = 6666

-- `init`: the sockets for HTTP and for the push clients, and the pattern for received messages.
unfoldable pub init : Host → Config → Option (Listener × Listener)
unfolding init_tcp_listen_sock
init h cfg = elim (init_tcp_listen_sock h.http_calls http_port cfg.remote_mode) [
  | none ↦ none
  | some http ↦ elim (init_tcp_listen_sock h.push_calls push_port cfg.remote_mode) [
    | none ↦ none
    | some push ↦ elim h.regcomp [ true ↦ some (http, push) | false ↦ none ]
  ]
]

-- EXIT_FAILURE, or the state in which the event loop begins.
pub data Start : Type 0 where
  exit_failure : Start
  dispatch : (cfg : Config) (http push : Listener) (lw : Lw) → Start

-- `setup_uart_events` opens the UART, and ends the process where that fails.
unfoldable pub set_up : Host → Config → Listener → Listener → Outcome Start
set_up h cfg http push = elim (h.uart_opens cfg.uart_file) [
  | false ↦ exited
  | true ↦ do lw ← boot (h.context_file cfg.filename); ok (dispatch cfg http push lw)
]

unfoldable pub after_opts : Host → Config → Bool → Outcome Start
unfolding init set_up
after_opts h cfg accepted = elim accepted [
  | false ↦ ok exit_failure
  | true ↦ elim h.daemon [
    | false ↦ ok exit_failure
    | true ↦ elim (init h cfg) [
      | none ↦ ok exit_failure
      | some (http, push) ↦ set_up h cfg http push
    ]
  ]
]

unfoldable pub main : Host → List Bytes → Outcome Start
unfolding parse_opts after_opts
main h argv = do (cfg, accepted) ← parse_opts no_config argv; after_opts h cfg accepted
