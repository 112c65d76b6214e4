-- ===== src/SegmentName.antt =====
-- crates/disruptor-mp/src/segment_name.rs: names for shared-memory segments.
pub mod Defs
pub mod Names
mod Tests
