-- ===== src/Stream.antt =====
-- The growing byte stream of stream.c.
pub mod Defs
pub mod Writes
pub mod Reads
mod Examples
