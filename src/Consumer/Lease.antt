-- ===== src/Consumer/Lease.antt =====
-- `SharedConsumerLease` and the calls that hand one out; `new_with_coordination` and readiness. A
-- lease is modelled with the event that its pointer shows.
use myelon.Common.{◌≡◌, refl, Bool, not, ◌==◌, Option, none, some, List, [], ◌∷◌, ◌++◌, length}
use myelon.Common.Int.{ℤ, pos}
use myelon.Common.Outcome.{Outcome, done, panic, blocked, assert, ◌>>=◌, ◌>>◌}
use myelon.Common.Text.{Text}
use myelon.Barrier.{Segments, attach, consumer_readiness_cursor_name}
use myelon.Ring.{RingBuffer}
use myelon.Consumer.Defs.{
  Consumer, Seen, count_consumed, count_empty, count_lag, available_batch_bounds,
  publish_consumed_sequence, read, try_consume_next, process_snapshot_batch_with_eob,
}

pub record Lease {ℓ} (E : Type ℓ) : Type ℓ where
  pub consumer : Consumer
  pub sequence : ℤ
  pub event : E

-- The consumer, the readiness cursor it has attached, and what it adds to that cursor.
unfoldable pub new_with_coordination :
    Segments → RingBuffer → ℤ → Text → Option Text → Outcome (Consumer × Option Text × ℤ)
new_with_coordination segments ring_buffer consumer_sequence consumer_id base_name = do
  assert (not (length consumer_id == 0))
  let consumers_ready : Option Text = elim base_name [
    | none ↦ none
    | some name ↦ attach segments (consumer_readiness_cursor_name name)
  ]
  done (
    record {
      ring_buffer = ring_buffer;
      consumer_sequence = consumer_sequence;
      last_processed_sequence = consumer_sequence;
      counters = record {
        events_consumed = none;
        consumer_empty_spins = none;
        consumer_lag_max = none;
      };
    },
    consumers_ready,
    elim consumers_ready [ none ↦ pos 0 | some _ ↦ pos 1 ],
  )

module _ {ℓ} {E : Type ℓ} where
  -- `Drop for SharedConsumerLease`.
  unfoldable pub drop_lease : Lease E → Consumer
  unfolding publish_consumed_sequence
  drop_lease lease = count_consumed 1 (publish_consumed_sequence lease.sequence lease.consumer)

  unfoldable pub try_consume_next_leased : Seen E → Consumer → Outcome (Option (Lease E) × Consumer)
  unfolding read available_batch_bounds
  try_consume_next_leased seen c = do
    bounds ← available_batch_bounds seen.producer_sequence c
    elim bounds [
      | none ↦ done (none, count_empty c)
      | some (next_sequence, upper) ↦ do
        event ← read c.ring_buffer seen.slots next_sequence
        let c' = count_lag next_sequence upper c
        done (some (record { consumer = c'; sequence = next_sequence; event = event }), c')
    ]

  -- `consume_next_leased` and its sleeping variant, which do not count.
  unfoldable pub consume_next_leased : List (Seen E) → Consumer → Outcome (Lease E)
  unfolding read available_batch_bounds
  consume_next_leased [] c = blocked
  consume_next_leased (seen ∷ later) c = do
    bounds ← available_batch_bounds seen.producer_sequence c
    elim bounds [
      | none ↦ consume_next_leased later c
      | some (next_sequence, _) ↦ do
        event ← read c.ring_buffer seen.slots next_sequence
        done (record { consumer = c; sequence = next_sequence; event = event })
    ]

  -- The `while let` of `process_available_blocking`.
  unfoldable pub further_batches :
      List (Seen E) → Consumer → Outcome (List (E × ℤ × Bool) × Consumer)
  unfolding available_batch_bounds process_snapshot_batch_with_eob
  further_batches [] c = blocked
  further_batches (seen ∷ later) c = do
    bounds ← available_batch_bounds seen.producer_sequence c
    elim bounds [
      | none ↦ done ([], c)
      | some (lower, upper) ↦ do
        batch ← process_snapshot_batch_with_eob lower upper seen.slots c
        rest ← further_batches later batch.1
        done (batch.0 ++ rest.0, rest.1)
    ]

  -- First it waits for a batch, then it takes what is there.
  unfoldable pub process_available_blocking :
      List (Seen E) → Consumer → Outcome (List (E × ℤ × Bool) × Consumer)
  unfolding available_batch_bounds process_snapshot_batch_with_eob further_batches
  process_available_blocking [] c = blocked
  process_available_blocking (seen ∷ later) c = do
    bounds ← available_batch_bounds seen.producer_sequence c
    elim bounds [
      | none ↦ process_available_blocking later c
      | some (lower, upper) ↦ do
        batch ← process_snapshot_batch_with_eob lower upper seen.slots c
        rest ← further_batches later batch.1
        done (batch.0 ++ rest.0, rest.1)
    ]

  -- What a caller has after it has copied the event out of a lease and dropped the lease.
  unfoldable pub copy_and_drop : Option (Lease E) × Consumer → Option (ℤ × E) × Consumer
  unfolding drop_lease
  copy_and_drop (none, c) = (none, c)
  copy_and_drop (some lease, c) = (some (lease.sequence, lease.event), drop_lease lease)

  -- To lease the next event, copy it and drop the lease is to consume it: same event, same sequence,
  -- same cursor and counters, and the same outcome when there is none or the call panics.
  pub try_consume_next-eq-lease :
      (seen : Seen E) (c : Consumer)
      → try_consume_next seen c ≡ (try_consume_next_leased seen c >>= λ r. done (copy_and_drop r))
  unfolding try_consume_next try_consume_next_leased copy_and_drop
  try_consume_next-eq-lease seen c = over_bounds (available_batch_bounds seen.producer_sequence c)
    where
      consumed : ℤ → ℤ → Outcome E → Outcome (Option (ℤ × E) × Consumer)
      consumed next_sequence upper o = o >>= λ event. done (
        some (next_sequence, event),
        count_lag next_sequence upper
            (count_consumed 1 (publish_consumed_sequence next_sequence c)),
      )

      leased : ℤ → ℤ → Outcome E → Outcome (Option (Lease E) × Consumer)
      leased next_sequence upper o = o >>= λ event. done (
        some (record {
          consumer = count_lag next_sequence upper c;
          sequence = next_sequence;
          event = event;
        }),
        count_lag next_sequence upper c,
      )

      over_event :
          (next_sequence upper : ℤ) (o : Outcome E)
          → consumed next_sequence upper o
            ≡ (leased next_sequence upper o >>= λ r. done (copy_and_drop r))
      over_event next_sequence upper (done event) = refl
      over_event next_sequence upper panic = refl
      over_event next_sequence upper blocked = refl

      over_bounds :
          (o : Outcome (Option (ℤ × ℤ)))
          → (o >>= λ bounds. elim bounds [
            | none ↦ done (none, count_empty c)
            | some (next_sequence, upper) ↦
                consumed next_sequence upper (read c.ring_buffer seen.slots next_sequence)
          ])
            ≡ ((o >>= λ bounds. elim bounds [
              | none ↦ done (none, count_empty c)
              | some (next_sequence, upper) ↦
                  leased next_sequence upper (read c.ring_buffer seen.slots next_sequence)
            ])
                >>= λ r. done (copy_and_drop r))
      over_bounds (done none) = refl
      over_bounds (done (some (next_sequence, upper))) =
          over_event next_sequence upper (read c.ring_buffer seen.slots next_sequence)
      over_bounds panic = refl
      over_bounds blocked = refl
