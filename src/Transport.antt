-- ===== src/Transport.antt =====
-- A record on its way from the device (support/device-support.cu) to a reader of the trace
-- (lib/trace-io.h).
pub mod Lanes
pub mod Header
pub mod Masks
pub mod Recovered
pub mod RoundTrip
pub mod Attribution
mod Tests
