-- ===== src/Layout.antt =====
-- crates/disruptor-mp/src/shared_memory_layout.rs: the header with which every shared segment begins.
pub mod Bytes
pub mod Defs
pub mod Validate
pub mod Align
pub mod RoundTrip
pub mod Attach
mod Tests
