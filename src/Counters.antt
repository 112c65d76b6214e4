-- ===== src/Counters.antt =====
-- crates/disruptor-mp/src/observability/mod.rs: the counters file of a segment.
pub mod Defs
pub mod Claims
pub mod Snapshot
mod Tests
