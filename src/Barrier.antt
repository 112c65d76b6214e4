-- ===== src/Barrier.antt =====
-- crates/disruptor-mp/src/lock_free/consumer_barrier.rs: the consumers that a producer knows, how it
-- discovers them, and the sequence that gates it.
pub mod Defs
pub mod Discovery
pub mod Min
pub mod Create
pub mod Known
pub mod Keys
pub mod Unique
pub mod Wait
pub mod Polled
pub mod Waited
mod Tests
pub use Defs.*
