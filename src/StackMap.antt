-- ===== src/StackMap.antt =====
-- The stack map of a frame (Jvmrt.c).
pub mod Defs
pub mod Marks
pub mod SetUp
pub mod Parsed
mod Examples
