-- ===== src/Lib.antt =====
-- myelon: messages between processes over rings in shared memory. A producer writes events into the
-- slots of a ring and publishes a cursor; every consumer reads every event and publishes its own
-- cursor, which the producer must not overtake by more than one turn of the ring. Above the rings, a
-- transport splits messages into frames and puts them together again.
--
-- Framing (crates/myelon/src/transport.rs): frame types and their flag byte (`FixedFrame`,
-- `AlignedFixedFrame`, `frame_flags`), the four `publish_framed_payload` loops, the owned, lease-scoped
-- and batch receivers, `ReassemblyBuffer`. A publish waits for each slot, and is blocked where the ring
-- never has one free. The frames that a receiver will get are a list, and a call
-- that needs one more than there is blocks; the message counter is passed along. A closure of the
-- source is a function on a state that is passed along.
-- Naming (the same file): `MyelonTransportLayout`, `compact_session_tag`, `validate_segment_name`.
-- Ring (crates/disruptor-mp/src/backend/shared_memory/ringbuffer.rs): `new_auto`, `wrap_point`,
-- `free_slots`, and `get`, the slot of a sequence.
-- Barrier (crates/disruptor-mp/src/lock_free/consumer_barrier.rs): which consumers a producer knows,
-- how it discovers them, and the sequence that gates it. A cursor is a named segment; a view gives the
-- names that can be attached, the value that a load through a handle returns, which stays on its own
-- mapping whatever becomes of the name, the time and the process id.
-- Barrier/Known and Barrier/Unique have what every operation keeps of the map of consumers,
-- Barrier/Wait and Barrier/Waited the wait for consumers at start-up, over the turns of its loops.
-- Producer (crates/disruptor-mp/src/producer.rs): `next_sequences` with its cached window,
-- `apply_update`, `apply_batch_updates`, and the publishing calls. A call that spins runs over the list
-- of the views that its attempts have, and is blocked when the list ends.
-- Consumer (crates/disruptor-mp/src/consumer.rs): available bounds, copies, leases, batches.
-- Liveness (crates/disruptor-mp/src/required_consumer.rs): the watch over the consumers that a producer
-- requires. It looks up their sequences through a function on a state that is passed along; in
-- Producer/Managed, which models `publish_managed` and `publish_batch_managed`, that state is the barrier.
-- Each round of a managed call has a view for its reservation and one for its check.
-- Layout (crates/disruptor-mp/src/shared_memory_layout.rs): the header of a segment as bytes, and its
-- validation. Counters (crates/disruptor-mp/src/observability/mod.rs): the counters file, and concurrent
-- registration as a step relation. SegmentName (crates/disruptor-mp/src/segment_name.rs): portable names.
-- Oracle (crates/myelon-dst/src/runner_oracle.rs): what the simulation checks of the messages received.
-- Protocol: both sides together as a step relation on slots, published events, the producer's window
-- and the consumers' positions, and how the calls of both sides take its steps.
-- Common: lists and text over the native numbers, signed and machine integers, outcomes, results.
--
-- Sequences are `i64` with their wrap-around; theorems about them ask for less than 2 ^ 61 events and
-- a ring of at most 2 ^ 61 slots, so that no sum leaves the range. `usize` is 64 bits wide; payloads are
-- shorter than 2 ^ 63 bytes, a frame shorter than 2 ^ 32. Splitting a payload runs on as much fuel as it
-- has bytes, writing a number in digits on one more than the number.
--
-- Not modelled: opening, mapping and unlinking shared memory, platform waits, memory orderings (a load
-- returns some earlier value of the cursor, and the slots that a loaded cursor covers are visible),
-- the simulation hooks and the simulation runner, the file-mapped backend, the metrics aggregator,
-- codecs, benchmarks. The hash of a session label and the lossy decoding of a counter's label are
-- parameters. Instants and durations are numbers of nanoseconds; the
-- last instant that the platform represents is a parameter where the code adds a duration to an instant.
-- `max_consumers` is taken to be below 2 ^ 63: with a larger one `clamp` would panic. The creation of a
-- ring's segment by the system is a parameter.
pub mod Common
pub mod Framing
pub mod Ring
pub mod Barrier
pub mod Liveness
pub mod Producer
pub mod Consumer
pub mod Protocol
pub mod Naming
pub mod SegmentName
pub mod Layout
pub mod Counters
pub mod Oracle
