-- ===== src/Context.antt =====
-- The context manager: src/context_manager.c and src/include/context_manager.h.
pub mod File
pub mod Acquire
pub mod Params
pub mod Firmware
pub mod Event
pub mod Order
pub mod Counter
pub mod Unqueued
pub mod Lines
pub mod Stored
pub mod Pending
pub mod Reset
pub mod Waiting
pub mod Moves
