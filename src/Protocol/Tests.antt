-- ===== src/Protocol/Tests.antt =====
-- A ring of four slots with five events published and one consumer that has read three of them.
use myelon.Common.{
  true, ℕ, zero, suc, ◌+◌, ◌%◌, ◌≤◌, ◌<◌, ◌≡◌, refl, false, none, some, List, [], ◌∷◌, arith,
  get_elem?, All,
}
use myelon.Common.Int.{◌-ℤ◌, pos, pos_part, neg_part, ◌<ℤ◌}
use myelon.Common.Outcome.{done}
use myelon.Common.Text.{codes}
use myelon.Barrier.{DiscoveryMode, Barrier, View}
use myelon.Barrier.Min.{
  get_min_consumer_sequence, discovered_min_sequence, min_loop, refresh, Gates,
  get_min_consumer_sequence-Gates,
}
use myelon.Ring.Index.{RingBuffer, get, free_slots}
use myelon.Ring.Laws.{IsRing, IsSeq, get_lem, free_slots_lem}
use myelon.Producer.Defs.{Producer, next_sequences, try_publish, apply_batch_updates}
use myelon.Producer.Reserve.{IsValid, rear, reservation, next_sequences-eq-reservation}
use myelon.Producer.Write.{each, apply_batch_updates-eq-each}
use myelon.Consumer.Defs.{process_snapshot_batch, Consumer, Seen}
use myelon.Protocol.System.{Step, System, write, consume, Steps, stay, onward, IsSafe}
use myelon.Protocol.Safety.{unread_event_kept}
use myelon.Protocol.Store.{system, Shows, Ran}
use myelon.Protocol.Code.{try_publish-Ran}
use myelon.Protocol.Gating.{rear-Known}
use myelon.Protocol.Batches.{numbered, process_snapshot_batch-Written}
use myelon.Protocol.Delivery.{Reads, Delivers, try_consume_next-Delivers}

abbrev ring : RingBuffer
ring = record { index_mask = pos 3; size = 4 }

abbrev log : List ℕ
log = 20 ∷ 21 ∷ 22 ∷ 23 ∷ 24 ∷ []

abbrev barrier : Barrier
barrier = record {
  consumer_cursors = (codes "a", codes "ring_a_seq") ∷ [];
  base_name = codes "ring";
  last_scan = 0;
  consumers_ready = none;
  consumer_registration = none;
  discovery_mode = DiscoveryMode.disabled;
  discovery_completed = false;
  producer_sequence = none;
}

abbrev view : View
view = record {
  segments = record { opens = λ name. true; load = λ name. pos 2 };
  now = 0;
  pid = 100;
}

abbrev producer : Producer ℕ
producer = record {
  ring_buffer = ring;
  slots = 24 ∷ 21 ∷ 22 ∷ 23 ∷ [];
  producer_sequence = pos 4;
  consumer_barrier = barrier;
  sequence = pos 5;
  sequence_clear_of_consumers = pos 4;
  coordination_completed = false;
  counters = record { events_published = some 5; producer_full_events = none };
}

ring-IsRing : IsRing ring
ring-IsRing = record { k = 2; size_eq = refl; mask_eq = refl; small = omega arith }

abbrev producer-IsValid : IsValid producer
producer-IsValid = record { ring = ring-IsRing; next = 5; next_eq = refl; small = omega arith }

rear-eq : rear view producer ≡ pos 2
unfolding get_min_consumer_sequence discovered_min_sequence min_loop refresh
rear-eq = refl

rear-IsSeq : IsSeq (rear view producer)
unfolding get_min_consumer_sequence discovered_min_sequence min_loop refresh
rear-IsSeq = record { above = omega arith; below = omega arith }

start-IsSafe : IsSafe (system producer log 7 (3 ∷ []))
unfolding system
start-IsSafe = record {
  size_pos = omega arith;
  slots_eq = refl;
  clear = (omega arith, tt);
  behind = (omega arith, tt);
  held = (held, tt);
}
  where
    held : (q : ℕ) → 3 ≤ q → q < 5 → get_elem? producer.slots (q % 4) ≡ get_elem? log q
    held zero h k = absurd (omega arith)
    held (suc zero) h k = absurd (omega arith)
    held (suc (suc zero)) h k = absurd (omega arith)
    held (suc (suc (suc zero))) h k = refl
    held (suc (suc (suc (suc zero)))) h k = refl
    held (suc (suc (suc (suc (suc q))))) h k = absurd (omega arith)

producer-Shows : Shows producer log 7
unfolding ◌-ℤ◌
producer-Shows = record {
  ring = ring-IsRing;
  next_eq = refl;
  cursor_eq = refl;
  window_le = omega arith;
}

stale : All (λ a. rear view producer <ℤ pos a) (3 ∷ [])
unfolding get_min_consumer_sequence discovered_min_sequence min_loop refresh
stale = (omega arith, tt)

try_publish-Ran_example :
    Ran producer (λ e. e + 4) log 7 (3 ∷ []) (try_publish view (λ e. e + 4) producer)
try_publish-Ran_example =
    try_publish-Ran view producer (λ e. e + 4) log 7 (3 ∷ []) producer-Shows start-IsSafe
      (omega arith) rear-IsSeq stale

next_sequences-eq-reservation_example :
    next_sequences view 2 producer ≡ done (reservation view 5 2 producer)
next_sequences-eq-reservation_example =
    next_sequences-eq-reservation view producer 2 producer-IsValid (omega arith) (omega arith)
      rear-IsSeq

apply_batch_updates-eq-each_example :
    apply_batch_updates 2 (λ i e. 25 + i) producer ≡ each (pos 0) 0 2 (λ i e. 25 + i) producer
apply_batch_updates-eq-each_example =
    apply_batch_updates-eq-each producer 2 (λ i e. 25 + i) producer-IsValid (omega arith)
      (omega arith)

abbrev consumer : Consumer
consumer = record {
  ring_buffer = ring;
  consumer_sequence = pos 2;
  last_processed_sequence = pos 2;
  counters = record {
    events_consumed = none;
    consumer_empty_spins = none;
    consumer_lag_max = none;
  };
}

consumer-Reads : Reads consumer (system producer log 7 (3 ∷ [])) 0 3
unfolding system
consumer-Reads = record {
  ring = ring-IsRing;
  size_eq = refl;
  listed = refl;
  low = omega arith;
  next = omega arith;
  small = omega arith;
}

-- It has loaded the cursor before the last event was published.
abbrev glimpse : Seen ℕ
glimpse = record { producer_sequence = pos 3; slots = 24 ∷ 21 ∷ 22 ∷ 23 ∷ [] }

try_consume_next-Delivers_example : Delivers consumer (system producer log 7 (3 ∷ [])) 0 3 glimpse
unfolding system
try_consume_next-Delivers_example =
    try_consume_next-Delivers consumer (system producer log 7 (3 ∷ [])) 0 3 glimpse start-IsSafe
      consumer-Reads (omega arith) refl (omega arith)

-- The next event is written over one that was read, and the consumer reads on.
abbrev system_written : System ℕ
system_written = record {
  size = 4;
  slots = 24 ∷ 25 ∷ 22 ∷ 23 ∷ [];
  log = log;
  window = 7;
  readers = 3 ∷ [];
}

write_ahead : Steps (system producer log 7 (3 ∷ [])) system_written
unfolding system
write_ahead =
    onward (write (system producer log 7 (3 ∷ [])) 5 25 (omega arith) (omega arith))
      (stay system_written)

read_on : Steps system_written (record system_written { readers = 4 ∷ [] })
read_on =
    onward (consume system_written 0 3 4 refl (omega arith) (omega arith))
      (stay (record system_written { readers = 4 ∷ [] }))

unread_event_kept_example :
    (get_elem? system_written.slots (4 % 4) ≡ get_elem? log 4) × (get_elem? log 4 ≡ get_elem? log 4)
unread_event_kept_example =
    unread_event_kept (system producer log 7 (3 ∷ [])) system_written
      (record system_written { readers = 4 ∷ [] }) 0 3 4 start-IsSafe write_ahead read_on refl
      (omega arith) (omega arith)

get_lem_example : (get ring (pos 6) ≡ done (6 % 4)) × (6 % 4 < 4)
get_lem_example = get_lem 6 ring-IsRing

get_min_consumer_sequence-Gates_example :
    Gates (pos 2 ∷ []) (get_min_consumer_sequence view barrier).0
unfolding refresh
get_min_consumer_sequence-Gates_example =
    get_min_consumer_sequence-Gates view barrier (pos 2) [] refl (omega arith, tt) (omega arith, tt)

free_slots_lem_example :
    (let free = free_slots ring (pos 4) (pos 2) in
      pos_part free + 4 + 0 ≡ neg_part free + 2 + 0 + 4)
free_slots_lem_example =
    free_slots_lem (pos 4) (pos 2) ring-IsRing (record { above = omega arith; below = omega arith })
      (record { above = omega arith; below = omega arith })

rear-Known_example : IsSeq (rear view producer) × All (λ a. rear view producer <ℤ pos a) (3 ∷ [])
unfolding refresh
rear-Known_example =
    rear-Known view producer (pos 2) [] (3 ∷ []) refl
      (record { above = omega arith; below = omega arith }, tt) ((0, pos 2, refl, omega arith), tt)

process_snapshot_batch-Written_example :
    (c' : Consumer) × (process_snapshot_batch (pos 3) (pos 4) producer.slots consumer
      ≡ done ((23, pos 3) ∷ (24, pos 4) ∷ [], c'))
    × (c'.consumer_sequence ≡ pos 4)
    × Step
        (system producer log 7 (3 ∷ []))
        (record (system producer log 7 (3 ∷ [])) { readers = 5 ∷ [] })
unfolding system numbered
process_snapshot_batch-Written_example =
    process_snapshot_batch-Written consumer (system producer log 7 (3 ∷ [])) 0 3 (20 ∷ 21 ∷ 22 ∷ [])
      23 (24 ∷ []) [] start-IsSafe consumer-Reads refl refl
