-- ===== src/TraceIo.antt =====
-- lib/trace-io.h: the trace file, its header, and its records.
pub mod Types
pub mod Deserialize
pub mod File
pub mod Header
pub mod Reader
pub mod Open
pub mod Next
pub mod Samples
mod Tests
mod NextTests
