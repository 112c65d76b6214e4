-- ===== src/Producer/Tests.antt =====
-- A full ring of four slots whose producer requires one consumer, `b`, which stands at sequence 1; the
-- others have read everything.
use myelon.Common.{
  ℕ, ◌+◌, ◌≡◌, refl, arith, true, false, none, some, List, [], ◌∷◌, inl, if◌then◌else◌,
}
use myelon.Barrier.Defs.{contains_key}
use myelon.Barrier.Unique.{IsKnown}
use myelon.Common.Int.{pos}
use myelon.Common.Word.{sub_i64}
use myelon.Common.Outcome.{done, Ends, NoPanic}
use myelon.Common.Result.{ok}
use myelon.Common.Text.{codes, ◌==ₜ◌}
use myelon.Barrier.{DiscoveryMode, Barrier, View}
use myelon.Liveness.Defs.{RequiredConsumerFailureAction, RequiredConsumerLivenessState, progress_of}
use myelon.Liveness.Watch.{IsWatched}
use myelon.Ring.Index.{RingBuffer}
use myelon.Producer.Reserve.{IsValid}
use myelon.Producer.Managed.{Managed, publish_managed, publish_batch_managed}
use myelon.Producer.Round.{Settled}
use myelon.Producer.Settle.{Wrote, publish_managed-NoPanic}
use myelon.Producer.SettleBatch.{WroteBatch, publish_batch_managed-NoPanic}
use myelon.Producer.Stuck.{publish_managed_stuck}

abbrev ring : RingBuffer
ring = record { index_mask = pos 3; size = 4 }

abbrev barrier : Barrier
barrier = record {
  consumer_cursors = (codes "b", codes "ring_b_seq") ∷ (codes "c", codes "ring_c_seq") ∷ [];
  base_name = codes "ring";
  last_scan = 0;
  consumers_ready = none;
  consumer_registration = none;
  discovery_mode = DiscoveryMode.disabled;
  discovery_completed = false;
  producer_sequence = none;
}

abbrev at_time : ℕ → View
at_time now = record {
  segments = record {
    opens = λ name. true;
    load = λ name. if name ==ₜ codes "ring_b_seq" then pos 1 else pos 5;
  };
  now = now;
  pid = 100;
}

abbrev watch : RequiredConsumerLivenessState
watch = record {
  config = record {
    required_consumer_ids = codes "b" ∷ [];
    startup_wait_timeout = 5000;
    progress_timeout = 250;
    progress_check_interval = 5;
    shutdown_grace_period = 1000;
    failure_action = RequiredConsumerFailureAction.graceful_shutdown;
  };
  consumers =
      (
        codes "b",
        record {
          last_observed_sequence = pos 1;
          last_progress_at = 100;
          stall_started_at = none;
          alert_emitted = false;
        },
      )
      ∷ [];
  startup_completed = true;
  last_check_at = 200;
  terminal_error = none;
}

abbrev managed : Managed ℕ
managed = record {
  producer = record {
    ring_buffer = ring;
    slots = 24 ∷ 25 ∷ 22 ∷ 23 ∷ [];
    producer_sequence = pos 5;
    consumer_barrier = barrier;
    sequence = pos 6;
    sequence_clear_of_consumers = pos 5;
    coordination_completed = false;
    counters = record { events_published = none; producer_full_events = none };
  };
  required_consumer_liveness = some watch;
}

abbrev valid : IsValid managed.producer
valid = record {
  ring = record { k = 2; size_eq = refl; mask_eq = refl; small = omega arith };
  next = 6;
  next_eq = refl;
  small = omega arith;
}

watch-IsWatched : IsWatched watch
unfolding progress_of ◌==ₜ◌
watch-IsWatched = record { positive = omega arith; covered = ((_, refl), tt); timed = (tt, tt) }

abbrev rounds : List (View × View)
rounds = (at_time 300, at_time 400) ∷ (at_time 1500, at_time 1600) ∷ []

publish_managed-NoPanic_example :
    NoPanic
      (λ r. Settled (Wrote managed.producer valid (λ e. e + 4)) managed.producer r.0 r.1)
      (publish_managed 9000 250 [] rounds (λ e. e + 4) managed)
publish_managed-NoPanic_example =
    publish_managed-NoPanic 9000 250 [] rounds (λ e. e + 4) managed valid watch-IsWatched tt

publish_batch_managed-NoPanic_example :
    (publish_batch_managed 9000 250 [] rounds 0 (λ i e. e + i) managed
      ≡ done (ok (sub_i64 (pos 6) (pos 1)), managed))
    × NoPanic
        (λ r. Settled (WroteBatch managed.producer valid 3 (λ i e. e + i)) managed.producer r.0 r.1)
        (publish_batch_managed 9000 250 [] rounds 3 (λ i e. e + i) managed)
publish_batch_managed-NoPanic_example =
    publish_batch_managed-NoPanic 9000 250 [] rounds 2 (λ i e. e + i) managed valid (omega arith)
      watch-IsWatched tt

barrier-IsKnown : IsKnown barrier
unfolding contains_key ◌==ₜ◌
barrier-IsKnown = record { once = refl; named = (refl, (refl, tt)) }

publish_managed_stuck_example :
    Ends
      (λ r. Settled (Wrote managed.producer valid (λ e. e + 4)) managed.producer r.0 r.1)
      (publish_managed 9000 250 [] rounds (λ e. e + 4) managed)
    × Ends
        (λ r. Settled (WroteBatch managed.producer valid 3 (λ i e. e + i)) managed.producer r.0 r.1)
        (publish_batch_managed 9000 250 [] rounds 3 (λ i e. e + i) managed)
unfolding progress_of ◌==ₜ◌
publish_managed_stuck_example =
    publish_managed_stuck 9000 250 [] (at_time 300) (at_time 400) (at_time 1500) (at_time 1600) []
      managed valid watch (codes "b") (pos 1) 100 (λ e. e + 4) 2 (λ i e. e + i) refl refl
      barrier-IsKnown (omega arith) (omega arith)
      (record {
        watched = watch-IsWatched;
        fine = refl;
        listed = inl refl;
        entry = (_, refl, (refl, refl, tt));
        due = omega arith;
        late = omega arith;
      })
      (omega arith) (omega arith) (omega arith)
