-- ===== src/Utf8.antt =====
-- The decoding of the texts of a constant pool: JvmLdrGetUtf8Bytes of jvmloadr.c.
pub mod Defs
pub mod Loop
pub mod Ascii
pub mod Wide
mod Examples
