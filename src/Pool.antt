-- ===== src/Pool.antt =====
-- Pools (pool.c, pool.h).
pub mod Defs
pub mod Sharing
mod Examples
