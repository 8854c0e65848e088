-- ===== src/Command.antt =====
-- Commands of the LoRa board: src/command.c and src/include/command.h.
pub mod Types
pub mod Table
pub mod Make
pub mod Lookup
pub mod Construct
pub mod Wait
pub mod Queue
pub mod Order
pub mod Responses
pub mod Params
pub mod Modes
pub mod Send
