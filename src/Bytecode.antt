-- ===== src/Bytecode.antt =====
-- The walk over a method's bytecode: the opcode table of bytecode.h, and skip_calc and
-- LdrGetCallOffsets of jvmloadr.c.
pub mod Defs
pub mod Layout
pub mod Walk
pub mod Ends
pub mod Deviations
mod Examples
