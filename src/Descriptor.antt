-- ===== src/Descriptor.antt =====
-- Field and method descriptors: Jvmparse.c, with the records _JVM_Field_Info and _JVM_Method_Info
-- of Jvmrt.h.
pub mod Defs
pub mod Grammar
pub mod RoundTrip
pub mod Method
pub mod Termination
pub mod Faults
mod Examples
