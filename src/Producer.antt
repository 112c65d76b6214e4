-- ===== src/Producer.antt =====
-- The producer side of a ring, `crates/disruptor-mp/src/producer.rs`: definitions, reservations,
-- writing, and the spinning call.
pub mod Defs
pub use Defs.*
pub mod Reserve
pub mod Write
pub mod Spin
pub mod Managed
pub mod Kept
pub mod Missing
pub mod Ready
pub mod Round
pub mod Settle
pub mod SettleBatch
pub mod Look
pub mod Checks
pub mod Stuck
mod Tests
