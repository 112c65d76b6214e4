-- ===== src/Liveness/Tests.antt =====
-- A producer that requires two consumers: `a` reads on, `b` stands at sequence 1.
use myelon.Common.{
  ℕ, ◌+◌, ◌≡◌, refl, arith, true, false, Option, none, some, [], ◌∷◌, if◌then◌else◌, inl, inr,
}
use myelon.Common.Int.{ℤ, pos}
use myelon.Common.Outcome.{done, Ends}
use myelon.Common.Text.{Text, codes, ◌==ₜ◌}
use myelon.Liveness.Defs.{
  RequiredConsumerFailureAction, RequiredConsumerLivenessConfig, RequiredConsumerLivenessState,
  RequiredConsumerError, new_state, evaluate_blocked, progress_of,
}
use myelon.Liveness.Judge.{Behind}
use myelon.Liveness.Watch.{IsWatched, Watching, evaluate_blocked-Watching, evaluate_blocked_again}
use myelon.Liveness.Stall.{Reported, evaluate_blocked_stuck}
use myelon.Liveness.Start.{new_state-IsWatched}

abbrev policy : RequiredConsumerLivenessConfig
policy = record {
  required_consumer_ids = codes "a" ∷ codes "b" ∷ [];
  startup_wait_timeout = 5000;
  progress_timeout = 250;
  progress_check_interval = 5;
  shutdown_grace_period = 1000;
  failure_action = RequiredConsumerFailureAction.graceful_shutdown;
}

-- Each look makes `a` go on by one.
abbrev cursors : Text → ℕ → Option ℤ × ℕ
cursors k n = if k ==ₜ codes "a" then (some (pos n), n + 1) else (some (pos 1), n)

abbrev stalled : RequiredConsumerLivenessState
stalled = record {
  config = policy;
  consumers =
      (
        codes "a",
        record {
          last_observed_sequence = pos 4;
          last_progress_at = 1000;
          stall_started_at = none;
          alert_emitted = false;
        },
      )
      ∷ (
        codes "b",
        record {
          last_observed_sequence = pos 1;
          last_progress_at = 100;
          stall_started_at = some 350;
          alert_emitted = true;
        },
      )
      ∷ [];
  startup_completed = true;
  last_check_at = 1000;
  terminal_error = none;
}

stalled-IsWatched : IsWatched stalled
unfolding progress_of ◌==ₜ◌
stalled-IsWatched = record {
  positive = omega arith;
  covered = ((_, refl), ((_, refl), tt));
  timed = (tt, (omega arith, tt));
}

abbrev reported : RequiredConsumerError
reported = RequiredConsumerError.graceful_shutdown_triggered (codes "b") (pos 1) 1300

evaluate_blocked-Watching_example :
    Ends
      (Watching cursors 300 (new_state 0 policy))
      (evaluate_blocked cursors 300 (pos 7) (new_state 0 policy) 2)
evaluate_blocked-Watching_example =
    evaluate_blocked-Watching cursors 300 (pos 7) (new_state 0 policy) 2
      (new_state-IsWatched 0 policy (omega arith))

abbrev shut_down : RequiredConsumerLivenessState
shut_down = record {
  config = policy;
  consumers =
      (
        codes "a",
        record {
          last_observed_sequence = pos 5;
          last_progress_at = 1400;
          stall_started_at = none;
          alert_emitted = false;
        },
      )
      ∷ (
        codes "b",
        record {
          last_observed_sequence = pos 1;
          last_progress_at = 100;
          stall_started_at = some 350;
          alert_emitted = true;
        },
      )
      ∷ [];
  startup_completed = true;
  last_check_at = 1400;
  terminal_error = some reported;
}

evaluate_blocked_again_example :
    evaluate_blocked cursors 9000 (pos 20) shut_down 8
    ≡ done (record { failure = some reported; alerts = []; state = shut_down; seen = 8 })
unfolding evaluate_blocked ◌==ₜ◌
evaluate_blocked_again_example =
    evaluate_blocked_again cursors 1400 (pos 7) stalled 5
      (record { failure = some reported; alerts = []; state = shut_down; seen = 6 }) reported 9000
      (pos 20) 8 stalled-IsWatched refl refl

-- `b` is at 1, the producer at 7.
cursors-Behind : (n : ℕ) → Behind (cursors (codes "b") n).0 (pos 1) (pos 7)
unfolding ◌==ₜ◌
cursors-Behind n = omega arith

evaluate_blocked_stuck_example :
    Ends
      (λ v. Ends Reported (evaluate_blocked cursors 2100 (pos 7) v.state (v.seen + 1)))
      (evaluate_blocked cursors 1100 (pos 7) stalled 5)
unfolding progress_of ◌==ₜ◌
evaluate_blocked_stuck_example =
    evaluate_blocked_stuck (pos 7) (codes "b") (pos 1) 100 1100 cursors cursors 2100 stalled
      (λ n. n + 1) 5 cursors-Behind cursors-Behind
      (record {
        watched = stalled-IsWatched;
        fine = refl;
        listed = inr (inl refl);
        entry = (_, refl, (refl, refl, omega arith));
        due = omega arith;
        late = omega arith;
      })
      (omega arith) (omega arith)
