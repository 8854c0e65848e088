-- ===== src/Daemon.antt =====
-- The daemon as a whole: the callbacks of the event loop (`cb_timer` of src/uart.c and those of
-- src/http.c and src/push.c), and what it goes through from its start in src/main.c.
pub mod Steps
pub mod Serial
pub mod Moves
pub mod Safe
pub mod Restore
pub mod Survives
