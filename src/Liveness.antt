-- ===== src/Liveness.antt =====
-- crates/disruptor-mp/src/required_consumer.rs: a producer's watch over the consumers that it requires,
-- from the wait at startup to the shutdown when one of them stalls.
pub mod Defs
pub mod Map
pub mod Rule
pub mod Judge
pub mod Watch
pub mod Pass
pub mod Seen
pub mod Stall
pub mod Start
mod Tests
