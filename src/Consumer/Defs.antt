-- ===== src/Consumer/Defs.antt =====
-- `SharedConsumer`: the available batch, copies of the next event, and the batch loops. An
-- operation takes what its loads see of the producer's memory; a processor is the list of its calls.
use myelon.Common.{
  ℕ, zero, suc, ◌+◌, Bool, true, false, ◌&&◌, Option, none, some, List, [], ◌∷◌, ◌++◌,
  if◌then◌else◌, get_elem?, map, max, length,
}
use myelon.Common.Int.{ℤ, pos, negsuc, pos_part, ltb_ℤ, leb_ℤ, ◌-ℤ◌, ◌+ℤ◌}
use myelon.Common.Word.{u64, add_i64, sub_i64}
use myelon.Common.Outcome.{Outcome, done, panic, blocked, assert, ◌>>=◌, ◌>>◌}
use myelon.Ring.{RingBuffer, get}

pub record ConsumerCounters : Type 0 where
  pub events_consumed : Option ℕ
  pub consumer_empty_spins : Option ℕ
  pub consumer_lag_max : Option ℕ

pub record Consumer : Type 0 where
  pub ring_buffer : RingBuffer
  pub consumer_sequence : ℤ
  pub last_processed_sequence : ℤ
  pub counters : ConsumerCounters

-- What a consumer sees when it loads the producer's cursor, and the slots meanwhile.
pub record Seen {ℓ} (E : Type ℓ) : Type ℓ where
  pub producer_sequence : ℤ
  pub slots : List E

-- `CounterHandle::add` and `record_max` on an attached counter.
abbrev pub add : Option ℕ → ℕ → Option ℕ
add none k = none
add (some n) k = some (u64 (n + k))

abbrev pub record_max : Option ℕ → ℕ → Option ℕ
record_max none k = none
record_max (some n) k = some (max n k)

abbrev pub count_consumed : ℕ → Consumer → Consumer
count_consumed k c = record c {
  counters = record c.counters { events_consumed = add c.counters.events_consumed k };
}

abbrev pub count_empty : Consumer → Consumer
count_empty c = record c {
  counters = record c.counters { consumer_empty_spins = add c.counters.consumer_empty_spins 1 };
}

-- The lag is `(upper - lower).max(0) as u64`.
abbrev pub count_lag : ℤ → ℤ → Consumer → Consumer
count_lag lower upper c = record c {
  counters = record c.counters {
    consumer_lag_max = record_max c.counters.consumer_lag_max (pos_part (sub_i64 upper lower));
  };
}

unfoldable pub available_batch_bounds : ℤ → Consumer → Outcome (Option (ℤ × ℤ))
available_batch_bounds producer_seq c = do
  assert (leb_ℤ (negsuc 0) c.last_processed_sequence)
  let next_sequence = add_i64 c.last_processed_sequence (pos 1) in
      done (if ltb_ℤ producer_seq next_sequence then none else some (next_sequence, producer_seq))

unfoldable pub publish_consumed_sequence : ℤ → Consumer → Consumer
publish_consumed_sequence sequence c = record c {
  consumer_sequence = sequence;
  last_processed_sequence = sequence;
}

unfoldable pub is_end_of_batch : ℤ → Consumer → Bool
is_end_of_batch producer_seq c = leb_ℤ producer_seq c.last_processed_sequence

-- The number of sequences in `lower..=upper`.
abbrev pub range_length : ℤ → ℤ → ℕ
range_length lower upper = pos_part (upper +ℤ pos 1 -ℤ lower)

module _ {ℓ} {E : Type ℓ} where
  -- The read through the pointer of a slot.
  unfoldable pub read : RingBuffer → List E → ℤ → Outcome E
  read ring slots sequence = do
    i ← get ring sequence
    elim (get_elem? slots i) [ none ↦ panic | some event ↦ done event ]

  unfoldable pub try_consume_next : Seen E → Consumer → Outcome (Option (ℤ × E) × Consumer)
  unfolding read available_batch_bounds publish_consumed_sequence
  try_consume_next seen c = do
    bounds ← available_batch_bounds seen.producer_sequence c
    elim bounds [
      | none ↦ done (none, count_empty c)
      | some (next_sequence, upper) ↦ do
        event ← read c.ring_buffer seen.slots next_sequence
        done (
          some (next_sequence, event),
          count_lag next_sequence upper
              (count_consumed 1 (publish_consumed_sequence next_sequence c)),
        )
    ]

  -- `consume_next` and `consume_next_with_sleep`, which differ in how the wait passes time.
  unfoldable pub consume_next : List (Seen E) → Consumer → Outcome ((ℤ × E) × Consumer)
  unfolding try_consume_next
  consume_next [] c = blocked
  consume_next (seen ∷ later) c = do
    tried ← try_consume_next seen c
    elim tried.0 [ none ↦ consume_next later tried.1 | some found ↦ done (found, tried.1) ]

  -- `process_next_blocking`; the second load of the cursor decides the end of the batch.
  unfoldable pub process_next_blocking :
      List (Seen E) → ℤ → Consumer → Outcome ((E × ℤ × Bool) × Consumer)
  unfolding consume_next is_end_of_batch
  process_next_blocking views later_seq c = do
    found ← consume_next views c
    done ((found.0.1, found.0.0, is_end_of_batch later_seq found.1), found.1)

  -- The calls of a processor over a range of sequences.
  unfoldable pub read_range : RingBuffer → List E → ℤ → ℕ → Outcome (List (E × ℤ))
  unfolding read
  read_range ring slots sequence zero = done []
  read_range ring slots sequence (suc n) = do
    event ← read ring slots sequence
    rest ← read_range ring slots (sequence +ℤ pos 1) n
    done ((event, sequence) ∷ rest)

  -- The processed count is the number of calls.
  unfoldable pub process_snapshot_batch :
      ℤ → ℤ → List E → Consumer → Outcome (List (E × ℤ) × Consumer)
  unfolding read_range publish_consumed_sequence
  process_snapshot_batch lower upper slots c = do
    calls ← read_range c.ring_buffer slots lower (range_length lower upper)
    done (
      calls,
      count_consumed (length calls) (publish_consumed_sequence upper (count_lag lower upper c)),
    )

  abbrev pub mark_end : ℤ → E × ℤ → E × ℤ × Bool
  mark_end upper (event, sequence) = (event, sequence, leb_ℤ upper sequence && leb_ℤ sequence upper)

  unfoldable pub process_snapshot_batch_with_eob :
      ℤ → ℤ → List E → Consumer → Outcome (List (E × ℤ × Bool) × Consumer)
  unfolding read_range publish_consumed_sequence
  process_snapshot_batch_with_eob lower upper slots c = do
    calls ← read_range c.ring_buffer slots lower (range_length lower upper)
    done (
      map (mark_end upper) calls,
      count_consumed (length calls) (publish_consumed_sequence upper (count_lag lower upper c)),
    )

  -- The `while let` of `process_available`, until a load finds nothing; `true` when there was a batch.
  unfoldable pub available_loop :
      List (Seen E) → Bool → Consumer → Outcome ((List (E × ℤ) × Bool) × Consumer)
  unfolding available_batch_bounds process_snapshot_batch
  available_loop [] observed_batch c = blocked
  available_loop (seen ∷ later) observed_batch c = do
    bounds ← available_batch_bounds seen.producer_sequence c
    elim bounds [
      | none ↦ done (([], observed_batch), c)
      | some (lower, upper) ↦ do
        batch ← process_snapshot_batch lower upper seen.slots c
        rest ← available_loop later true batch.1
        done ((batch.0 ++ rest.0.0, rest.0.1), rest.1)
    ]

  unfoldable pub process_available : List (Seen E) → Consumer → Outcome (List (E × ℤ) × Consumer)
  unfolding available_loop
  process_available views c = do
    processed ← available_loop views false c
    done (processed.0.0, if processed.0.1 then processed.1 else count_empty processed.1)
