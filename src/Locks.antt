-- ===== src/Locks.antt =====
-- The locks and wait sets of objects, in Jvmrt.c.
pub mod Defs
pub mod Reachable
pub mod Waiting
mod Examples
