-- ===== src/Process.antt =====
-- The process around the daemon: src/main.c, and the sockets of src/util.c.
pub mod Options
pub mod Sockets
pub mod Main
pub mod Chosen
pub mod Serving
