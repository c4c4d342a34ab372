-- ===== src/BinTree.antt =====
-- The binary search tree of bintree.c.
pub mod Defs
pub mod Reference
pub mod Search
pub mod InOrder
pub mod Delete
mod Examples
