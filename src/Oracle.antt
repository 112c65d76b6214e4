-- ===== src/Oracle.antt =====
-- crates/myelon-dst/src/runner_oracle.rs: what the simulation checks of the messages that consumers got.
pub mod Defs
pub mod Verdicts
pub mod Complete
mod Tests
