-- ===== src/Framing.antt =====
-- The framed transport of crates/myelon/src/transport.rs: frames, fragmentation, reassembly.
pub mod Flags
pub mod Frame
pub mod Buffer
pub mod Publish
pub mod Fragments
pub mod Variants
pub mod Receive
pub mod Channel
pub mod RoundTrip
pub mod Leased
pub mod Batch
pub mod Delivery
pub mod Session
mod Tests
