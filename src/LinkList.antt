-- ===== src/LinkList.antt =====
-- Linked lists (linklist.c, linklist.h).
pub mod Defs
pub mod Cursor
pub mod Circle
pub mod Walk
pub mod Misses
mod Examples
