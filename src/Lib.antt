-- ===== src/Lib.antt =====
-- The LoRaWAN AT daemon: it speaks AT commands with a LoRa board over a UART, takes requests over
-- HTTP, and pushes what the board receives to TCP clients.
--
-- The parts, and the files of src/ that they model:
--   Util        the text helpers of util.c (`is_buffer_contains`, `ltrim`, `rtrim`, `trim`)
--   LwanContext the data of include/context_manager.h: MAC parameters and firmware contexts
--   Command     command.c and include/command.h: the table `cmd_def_list`, `make_cmd`, the functions
--               behind `construct_cmd` (Construct) and `process_cmd` (Wait), and the command that
--               takes the bytes of the board (Queue)
--   State       the structs of include/lorawanatd.h, http.h and push.h, and what the daemon does to
--               the world (`Effect`) or meets in it (`Env`)
--   Clients     the queue of HTTP clients (http.c)
--   Context     context_manager.c: the file, the counter, the contexts that are saved and restored,
--               the MAC parameters that wait for a join
--   Push        push.c
--   Uart        uart.c, with `run_async_cmd` and its two functions of command.c (Async), and the
--               settings of the serial device (Settings)
--   Http        http.c: routes, request head, JSON body, reply, and `process_http_clients`
--   Daemon      `cb_timer` of uart.c and the other callbacks of the event loop as steps
--   Sessions    an abstract machine: what the daemon promises of its HTTP clients
--   Exchange    a command's exchange with the board, over the rounds of the timer
--   Process     main.c up to the event loop: options, `init` and `main`, with the listening sockets
--               of util.c
--   Base, Tests shared helpers, and concrete inputs
--
-- How they interact: an HTTP client's request becomes commands in its queue (Http.Read, Http.Json).
-- In each round of the timer the first client's executing command is watched (Http.Process), its
-- next command is started (Uart.Run), and the UART is read or written (Uart.Rx, Uart.Tx). Every byte
-- of the board goes through the asynchronous commands (Uart.Async) to the command that is executing.
-- A command that is done is an event for the context manager (Context.Event), which may queue a
-- local client of its own. The `mod` of each part passes on no names: a user names the child module.
--
-- The process (Process.Main) reads its options, opens its sockets, and starts the daemon in the state
-- `boot` (Daemon.Steps). Daemon.Steps has one step for each callback that comes to its end; `view`
-- (Sessions.View) is what the abstract machine knows of a state: of each client the address, whether
-- it is local, its state, and the states of its commands.
--
-- How the code is rendered:
--   * A function that changes state takes the state `Lw` and returns an `Outcome`: `fault` is
--     undefined behaviour (a write past a buffer, a null or dangling pointer), `exited` the end of
--     the process, `unfinished` a loop whose fuel is used up.
--   * A buffer with its length is the list of the bytes in use; the capacity is checked where the
--     code writes. A pointer into a text is the text from there on, whose end reads as a NUL.
--   * The address of a client is its `id`, taken from `next_id`, which no client has had.
--   * The queues are lists. A walk that stops at a command returns what stands before and behind it
--     (`Next`, `Current`), and the changed command is put back between the two.
--   * `time` is read once for each callback. `long`, `size_t`, `uint32_t` and `uint8_t` are numbers
--     with their wrap-around written out.
--   * The `params_str` of context_manager.c are shared texts; a command has the text that was there
--     when it was made.
--   * Writes to sockets are effects: a short write is only logged by the code. `uart_write` never
--     returns an error, so no command comes to the state CMD_ERROR.
--   * Fuel: `acquire_loop` has one round for each byte of the response, and one more; each round that
--     goes on past a line of a known type takes the two bytes of a line break. At a line of an
--     unknown type the loop of the code stays on that line, and the model uses its fuel up.
--     `print_digits` has ten, the digits of 2^32.
--
-- Parameters: `regexec` (in `Env`), `phr_parse_request` (`PhrParser`) and `jsmn_parse` (`JsmnParser`).
--
-- System calls are arguments as well: what the calls for a socket return (`Calls`), what `tcgetattr`
-- and `tcsetattr` do (`TermiosCalls`), whether `daemon`, `regcomp` and `open` succeed (`Host`). `getopt`
-- is that of the C library for ":f:c:b:r": operands are passed over, "--" ends the options. The bits
-- of the termios flags and of `O_NONBLOCK` are those of Linux.
--
-- Not modelled: the handler of SIGINT with `clean`, the registration of the callbacks with libevent,
-- the compilation of the pattern, logging, `str_to_hex`, `flush_dev_read` and `get_mac_param_cmd`,
-- which are not called, code that is compiled out, and the vendored picohttpparser and jsmn.
pub mod Base
pub mod Util
pub mod LwanContext
pub mod Command
pub mod State
pub mod Clients
pub mod Sessions
pub mod Context
pub mod Push
pub mod Uart
pub mod Http
pub mod Daemon
pub mod Exchange
pub mod Process
mod Tests
