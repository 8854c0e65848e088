-- ===== src/Http.antt =====
-- The HTTP interface: src/http.c.
pub mod Route
pub mod Request
pub mod Json
pub mod Read
pub mod Reply
pub mod Process
pub mod Order
pub mod Added
pub mod ReadOrder
pub mod ReadSame
pub mod Prefix
pub mod Length
pub mod Listing
pub mod Late
pub mod Replied
pub mod Config
pub mod Simple
pub mod Headers
pub mod Posted
pub mod Sending
pub mod Moves
