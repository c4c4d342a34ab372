-- ===== src/HashTable.antt =====
-- The hash table and the dictionary of Hashtabl.c.
pub mod Defs
pub mod Chain
pub mod Laws
mod Examples
