-- ===== src/ClassFile.antt =====
-- The fields, methods and attributes of a class file (jvmloadr.c).
pub mod Defs
pub mod Tables
pub mod Variables
pub mod Constants
pub mod Attributes
pub mod Code
pub mod Readers
pub mod Loader
pub mod Format
pub mod Skip
pub mod Fields
pub mod Codes
pub mod Methods
pub mod Written
pub mod RoundTrip
pub mod Sound
pub mod Handlers
pub mod Accepted
pub mod Faults
pub mod Depth
mod Examples
