-- ===== src/ConstPool.antt =====
-- The constant pool of a class file: the reader of jvmloadr.c and what the loader checks first.
pub mod Defs
pub mod Format
pub mod RoundTrip
pub mod Invariant
pub mod Accepted
pub mod Refusals
mod Examples
