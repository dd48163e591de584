-- ===== src/Device.antt =====
-- support/device-support.cu: what an instrumented kernel calls on the device.
pub mod Warp
pub mod Trace
pub mod Writemask
pub mod Slot
pub mod Filter
mod Tests
