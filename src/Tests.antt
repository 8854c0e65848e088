-- ===== src/Tests.antt =====
-- Concrete inputs for the theorems of the library.
mod Samples
mod Boot
mod Saved
mod Commands
mod Requests
mod Posts
mod Reached
mod Starting
mod Exchanged
mod Board
