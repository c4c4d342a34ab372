-- ===== src/Names.antt =====
-- The names that a class refers to: JvmLdrGetStringName, JvmResolveMethodRef and
-- JvmDGetReferredClasses of jvmloadr.c.
pub mod Defs
pub mod Cache
pub mod Resolve
mod Examples
