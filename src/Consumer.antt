-- ===== src/Consumer.antt =====
-- The consumer side of a ring, `crates/disruptor-mp/src/consumer.rs`.
pub mod Defs
pub mod Lease
pub use Defs.*
mod Tests
