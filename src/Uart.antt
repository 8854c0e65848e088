-- ===== src/Uart.antt =====
-- The UART: src/uart.c, and what src/command.c does with the bytes that the board sends.
pub mod Settings
pub mod Raw
pub mod Tx
pub mod Async
pub mod Rx
pub mod Run
pub mod Order
pub mod Start
pub mod ReadMoves
pub mod StartMoves
pub mod Fifo
pub mod Cut
