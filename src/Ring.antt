-- ===== src/Ring.antt =====
-- crates/disruptor-mp/src/backend/shared_memory/ringbuffer.rs: the slots of a ring in shared memory,
-- addressed by sequence. The slots are shared by the processes; the mask and size are each one's copy.
pub mod Index
pub mod Create
pub mod Laws
pub use Index.*
