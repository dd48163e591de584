-- ===== src/Host.antt =====
-- support/host-support.cu: the host runtime that empties the slots into the trace file.
pub mod Slot
pub mod Interface
pub mod Filename
pub mod Consumer
mod Tests
mod ConsumerTests
