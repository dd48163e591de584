-- ===== src/Pass.antt =====
-- The plugin: its arguments and the numbers that instrumented kernels compute.
pub mod Options
pub mod Symbols
pub mod Host
pub mod Index
pub mod Kernels
pub mod Launches
pub mod Pointer
pub mod Access
pub mod Headers
pub mod Device
pub mod Setup
mod Tests
mod KernelTests
mod LaunchTests
mod HostTests
