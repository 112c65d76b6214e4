-- ===== src/Producer/Defs.antt =====
-- `SharedProducer`: reservation of sequences, the cached clearance window, writing and publishing. The
-- handle holds the memory that it alone writes: the slots, the producer cursor and its counters.
use myelon.Common.{
  ℕ, zero, suc, ◌+◌, Bool, true, false, Option, none, some, List, [], ◌∷◌, ◌==◌, ltb, leb,
  if◌then◌else◌, get_elem?, set,
}
use myelon.Common.Int.{ℤ, pos, negsuc, ltb_ℤ, leb_ℤ, ◌+ℤ◌}
use myelon.Common.Word.{
  u64, u64_max, as_i64, add_i64, sub_i64, checked_add_i64, checked_sub_i64, i64_try_from,
  i64_as_u64,
}
use myelon.Common.Outcome.{Outcome, done, panic, blocked, assert, ◌>>=◌, ◌>>◌}
use myelon.Common.Result.{Result, ok, err}
use myelon.Barrier.{Barrier, View}
use myelon.Barrier.Min.{get_min_consumer_sequence}
use myelon.Common.Text.{Text}
use myelon.Barrier.Create.{set_producer_sequence, set_consumer_registration}
use myelon.Ring.{RingBuffer, free_slots, get}

-- A counter is `none` until it is attached.
pub record ProducerCounters : Type 0 where
  pub events_published : Option ℕ
  pub producer_full_events : Option ℕ

pub record Producer {ℓ} (E : Type ℓ) : Type ℓ where
  pub ring_buffer : RingBuffer
  pub slots : List E
  pub producer_sequence : ℤ
  pub consumer_barrier : Barrier
  pub sequence : ℤ
  pub sequence_clear_of_consumers : ℤ
  pub coordination_completed : Bool
  pub counters : ProducerCounters

-- `fetch_add(1)` on an attached counter.
abbrev pub inc : Option ℕ → Option ℕ
inc none = none
inc (some n) = some (u64 (n + 1))

-- A write through the pointer of a slot.
abbrev pub update_slot {ℓ} : {E : Type ℓ} → List E → ℕ → (E → E) → List E
update_slot slots i update = elim (get_elem? slots i) [
  | none ↦ slots
  | some event ↦ set slots i (update event)
]

-- `expect`.
abbrev pub expect {ℓ} : {A : Type ℓ} → Option A → Outcome A
expect none = panic
expect (some a) = done a

-- `Instant::checked_add(…)`: `instant_max` is the last instant that the platform represents.
abbrev pub checked_add_instant : ℕ → ℕ → ℕ → Option ℕ
checked_add_instant instant_max now duration =
    if leb (now + duration) instant_max then some (now + duration) else none

module _ {ℓ} {E : Type ℓ} where
  -- From the barrier that the coordination mode has made; a cursor is given by its name.
  unfoldable pub new_with_coordination_and_discovery :
      RingBuffer → List E → Text → Barrier → Option Text → Producer E
  unfolding set_consumer_registration set_producer_sequence
  new_with_coordination_and_discovery ring_buffer slots producer_sequence barrier
        consumer_registration =
      record {
        ring_buffer = ring_buffer;
        slots = slots;
        producer_sequence = negsuc 0;
        consumer_barrier = set_producer_sequence producer_sequence (elim consumer_registration [
          | none ↦ barrier
          | some cursor ↦ set_consumer_registration cursor barrier
        ]);
        sequence = pos 0;
        sequence_clear_of_consumers = sub_i64 (as_i64 ring_buffer.size) (pos 1);
        coordination_completed = false;
        counters = record { events_published = none; producer_full_events = none };
      }

  -- The number in the error is the number of slots that are missing.
  unfoldable pub last_reserved_sequence : Producer E → ℤ → Result ℤ ℕ
  last_reserved_sequence p n = elim (checked_sub_i64 p.sequence (pos 1)) [
    | none ↦ err u64_max
    | some current ↦ elim (checked_add_i64 current n) [
      | none ↦ err u64_max
      | some n_next ↦ ok n_next
    ]
  ]

  unfoldable pub update_min_consumer_clearance_window :
      View → ℤ → ℤ → Producer E → Result (Unit {0}) ℕ × Producer E
  update_min_consumer_clearance_window v n n_next p =
      if leb_ℤ n_next p.sequence_clear_of_consumers
      then (ok tt, p)
      else let last_published = sub_i64 p.sequence (pos 1) in
        let (rear_sequence_read, barrier) = get_min_consumer_sequence v p.consumer_barrier in
        let free = free_slots p.ring_buffer last_published rear_sequence_read in
        if ltb_ℤ free n
        then (err (i64_as_u64 (sub_i64 n free)), record p { consumer_barrier = barrier })
        else (
          ok tt,
          record p {
            consumer_barrier = barrier;
            sequence_clear_of_consumers = add_i64 last_published free;
          },
        )

  unfoldable pub next_sequences : View → ℕ → Producer E → Outcome (Result ℤ ℕ × Producer E)
  unfolding last_reserved_sequence update_min_consumer_clearance_window
  next_sequences v n p = elim (i64_try_from n) [
    | none ↦ done (err u64_max, p)
    | some n ↦ do
      assert (ltb_ℤ (pos 0) n)
      done (elim (last_reserved_sequence p n) [
        | err missing ↦ (err missing, p)
        | ok n_next ↦
            let (cleared, p') = update_min_consumer_clearance_window v n n_next p in
            (elim cleared [ err missing ↦ err missing | ok _ ↦ ok n_next ], p')
      ])
  ]

  unfoldable pub apply_update : (E → E) → Producer E → Outcome (ℤ × Producer E)
  apply_update update p = do
    assert (leb_ℤ (pos 0) p.sequence)
    i ← get p.ring_buffer p.sequence
    done (
      p.sequence,
      record p {
        slots = update_slot p.slots i update;
        producer_sequence = p.sequence;
        sequence = add_i64 p.sequence (pos 1);
      },
    )

  -- The loop over `lower..=upper`, with the index that `enumerate` counts.
  unfoldable pub update_loop : RingBuffer → (ℕ → E → E) → List E → ℤ → ℕ → ℕ → Outcome (List E)
  update_loop ring update_fn slots seq i zero = done slots
  update_loop ring update_fn slots seq i (suc n) = do
    k ← get ring seq
    update_loop ring update_fn (update_slot slots k (update_fn i)) (seq +ℤ pos 1) (i + 1) n

  unfoldable pub apply_batch_updates : ℕ → (ℕ → E → E) → Producer E → Outcome (ℤ × Producer E)
  unfolding update_loop
  apply_batch_updates n update_fn p = do
    assert (ltb 0 n)
    n_seq ← expect (i64_try_from n)
    upper_offset ← expect (checked_sub_i64 n_seq (pos 1))
    upper ← expect (checked_add_i64 p.sequence upper_offset)
    slots ← update_loop p.ring_buffer update_fn p.slots p.sequence 0 n
    done (
      upper,
      record p { slots = slots; producer_sequence = upper; sequence = add_i64 p.sequence n_seq },
    )

  abbrev pub count_published : Producer E → Producer E
  count_published p = record p {
    counters = record p.counters { events_published = inc p.counters.events_published };
  }

  abbrev pub count_full : Producer E → Producer E
  count_full p = record p {
    counters = record p.counters { producer_full_events = inc p.counters.producer_full_events };
  }

  -- The error of `try_publish` is `RingBufferFull`.
  unfoldable pub try_publish :
      View → (E → E) → Producer E → Outcome (Result ℤ (Unit {0}) × Producer E)
  unfolding next_sequences apply_update
  try_publish v update p = do
    reserved ← next_sequences v 1 p
    elim reserved.0 [
      | err _ ↦ done (err tt, count_full reserved.1)
      | ok _ ↦ do
        applied ← apply_update update reserved.1
        done (ok applied.0, count_published applied.1)
    ]

  -- The spin of `publish`, over the views that its attempts have; the event when they run out is
  -- that the call still waits.
  unfoldable pub publish_loop : List View → Bool → (E → E) → Producer E → Outcome (Producer E)
  unfolding next_sequences apply_update
  publish_loop [] spun update p = blocked
  publish_loop (v ∷ views) spun update p = do
    reserved ← next_sequences v 1 p
    elim reserved.0 [
      | err _ ↦ publish_loop views true update (if spun then reserved.1 else count_full reserved.1)
      | ok _ ↦ do applied ← apply_update update reserved.1; done (count_published applied.1)
    ]

  unfoldable pub publish : List View → (E → E) → Producer E → Outcome (Producer E)
  unfolding publish_loop
  publish views update p = publish_loop views false update p

  unfoldable pub try_batch_publish :
      View → ℕ → (ℕ → E → E) → Producer E → Outcome (Result ℤ ℕ × Producer E)
  unfolding next_sequences apply_batch_updates
  try_batch_publish v n update_fn p =
      if n == 0 then done (ok (sub_i64 p.sequence (pos 1)), p) else do
        reserved ← next_sequences v n p
        elim reserved.0 [
          | err missing ↦ done (err missing, reserved.1)
          | ok _ ↦ do
            applied ← apply_batch_updates n update_fn reserved.1
            done (ok applied.0, applied.1)
        ]

  -- `publish_with_timeout`: the deadline against the clock of each attempt; `PublishTimeoutError::Timeout`
  -- is the only error.
  unfoldable pub timeout_loop :
      List View → ℕ → (E → E) → Producer E → Outcome (Result ℤ (Unit {0}) × Producer E)
  unfolding next_sequences apply_update
  timeout_loop [] deadline update p = blocked
  timeout_loop (v ∷ views) deadline update p = do
    reserved ← next_sequences v 1 p
    elim reserved.0 [
      | err _ ↦
          if ltb v.now deadline
          then timeout_loop views deadline update reserved.1
          else done (err tt, reserved.1)
      | ok _ ↦ do applied ← apply_update update reserved.1; done (ok applied.0, applied.1)
    ]

  unfoldable pub publish_with_timeout :
      ℕ → ℕ → List View → ℕ → (E → E) → Producer E → Outcome (Result ℤ (Unit {0}) × Producer E)
  unfolding timeout_loop
  publish_with_timeout instant_max now views timeout update p = do
    assert (ltb 0 timeout)
    deadline ← expect (checked_add_instant instant_max now timeout)
    timeout_loop views deadline update p

  unfoldable pub is_consumed : View → ℤ → Producer E → Bool × Producer E
  is_consumed v seq p =
      let (rear, barrier) = get_min_consumer_sequence v p.consumer_barrier in
      (leb_ℤ seq rear, record p { consumer_barrier = barrier })

  -- The loop of `wait_until_consumed_with_strategy`: the wait strategy only passes time.
  unfoldable pub wait_loop : List View → ℕ → ℤ → Producer E → Outcome (Bool × Producer E)
  unfolding is_consumed
  wait_loop [] deadline seq p = blocked
  wait_loop (v ∷ views) deadline seq p =
      if ltb v.now deadline
      then (let (consumed, p') = is_consumed v seq p in
          let rest = wait_loop views deadline seq p' in if consumed then done (true, p') else rest)
      else done (false, p)

  -- A `Duration` is not negative.
  unfoldable pub wait_until_consumed_with_strategy :
      ℕ → ℕ → List View → ℤ → ℕ → Producer E → Outcome (Bool × Producer E)
  unfolding wait_loop
  wait_until_consumed_with_strategy instant_max now views seq timeout p = do
    deadline ← expect (checked_add_instant instant_max now timeout)
    wait_loop views deadline seq p
