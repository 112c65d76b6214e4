-- ===== src/Protocol.antt =====
-- The producer and its consumers together, as steps that interleave: the events that `publish` and
-- `try_batch_publish` of `crates/disruptor-mp/src/producer.rs` store, and the cursors that the consumers
-- of `crates/disruptor-mp/src/consumer.rs` publish.
pub mod System
pub mod Safety
pub mod Store
pub mod Code
pub mod Delivery
pub mod Gating
pub mod Batches
mod Tests
