-- ===== src/Consumer/Tests.antt =====
-- A consumer that has read one event and leases the next.
use myelon.Common.{ℕ, ◌≡◌, some, [], ◌∷◌}
use myelon.Common.Int.{pos}
use myelon.Common.Outcome.{done, ◌>>=◌}
use myelon.Consumer.Defs.{Consumer, Seen, try_consume_next}
use myelon.Consumer.Lease.{try_consume_next_leased, copy_and_drop, try_consume_next-eq-lease}

abbrev reader : Consumer
reader = record {
  ring_buffer = record { index_mask = pos 1; size = 2 };
  consumer_sequence = pos 0;
  last_processed_sequence = pos 0;
  counters = record {
    events_consumed = some 1;
    consumer_empty_spins = some 0;
    consumer_lag_max = some 0;
  };
}

abbrev two_events : Seen ℕ
two_events = record { producer_sequence = pos 1; slots = 7 ∷ 8 ∷ [] }

try_consume_next-eq-lease_example :
    try_consume_next two_events reader
    ≡ (try_consume_next_leased two_events reader >>= λ r. done (copy_and_drop r))
try_consume_next-eq-lease_example = try_consume_next-eq-lease two_events reader
