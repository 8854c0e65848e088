-- ===== src/Util.antt =====
-- src/util.c: trimming a response and looking for a text in one.
pub mod Trim
pub mod Contains
