-- ===== src/Naming.antt =====
-- Names and depths of a session's rings: `MyelonTransportLayout`, `MyelonTransportConfig`,
-- `RunnerMyelonTransportConfig` and `validate_segment_name` of `crates/myelon/src/transport.rs`.
pub mod Layout
pub mod Limits
mod Tests
