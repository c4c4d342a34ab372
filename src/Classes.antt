-- ===== src/Classes.antt =====
-- Loaded classes: their methods, fields and ancestors (jvmloadr.c, Jvmrt.c).
pub mod Defs
pub mod Springs
pub mod Ancestors
pub mod Fields
mod Examples
