-- ===== src/Interpreter.antt =====
-- The bytecode handlers of Jvmrt.c that work on the frame of the running method.
pub mod Machine
pub mod Numbers
pub mod Stack
pub mod Arithmetic
pub mod Locals
pub mod Memory
pub mod Arrays
pub mod Elements
pub mod NewArrays
pub mod Stores
pub mod Branches
pub mod Effects
pub mod Instructions
pub mod Moves
pub mod Sums
pub mod Operations
pub mod Variables
pub mod Conditions
pub mod Longs
mod Examples
