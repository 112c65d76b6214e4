-- ===== src/Producer/Managed.antt =====
-- Managed publishing: `publish_managed` and `publish_batch_managed`, which watch over the required
-- consumers. The views are those that the rounds have: one for a look at startup, one for a reservation,
-- one for a check.
use myelon.Common.{
  ℕ, ◌==◌, leb, Bool, true, false, Option, none, some, List, [], ◌∷◌, if◌then◌else◌,
}
use myelon.Common.Int.{ℤ, pos}
use myelon.Common.Word.{sub_i64}
use myelon.Common.Outcome.{Outcome, done, blocked, ◌>>=◌}
use myelon.Common.Result.{Result, ok, err}
use myelon.Common.Text.{Text}
use myelon.Barrier.{Barrier, View}
use myelon.Barrier.Discovery.{discover_consumer_id}
use myelon.Barrier.Create.{consumer_sequence}
use myelon.Producer.Defs.{
  Producer, next_sequences, apply_update, apply_batch_updates, expect, checked_add_instant,
}
use myelon.Liveness.Defs.{
  RequiredConsumerLivenessConfig, RequiredConsumerError, RequiredConsumerLivenessState, new_state,
  seed_progress, mark_startup_completed, missing_required_consumers, evaluate_blocked,
}

-- `SharedProducer` with its field `required_consumer_liveness`.
pub record Managed {ℓ} (E : Type ℓ) : Type ℓ where
  pub producer : Producer E
  pub required_consumer_liveness : Option RequiredConsumerLivenessState

abbrev pub look : View → Text → Barrier → Option ℤ × Barrier
look v consumer_id b = consumer_sequence v.segments consumer_id b

abbrev pub find : View → Text → Barrier → Bool × Barrier
find v consumer_id b = discover_consumer_id v.segments consumer_id b

-- The loop of `ensure_required_consumers_ready`.
unfoldable pub ready_loop :
    List View
    → ℕ
    → RequiredConsumerLivenessState
    → Barrier
    → Outcome (Result (Unit {0}) RequiredConsumerError × RequiredConsumerLivenessState × Barrier)
unfolding missing_required_consumers seed_progress mark_startup_completed
ready_loop [] deadline st b = blocked
ready_loop (v ∷ views) deadline st b =
    let (missing, b') = missing_required_consumers (find v) st b in
    elim missing [
      | [] ↦ do
        seeded ← seed_progress (look v) v.now st b'
        done (ok tt, mark_startup_completed v.now seeded.0, seeded.1)
      | consumer_id ∷ ids ↦ elim (leb deadline v.now) [
        | true ↦ done (err (RequiredConsumerError.startup_timeout (consumer_id ∷ ids)), st, b')
        | false ↦ ready_loop views deadline st b'
      ]
    ]

module _ {ℓ} {E : Type ℓ} where
  abbrev pub with_barrier : Producer E → Barrier → Producer E
  with_barrier p b = record p { consumer_barrier = b }

  unfoldable pub enable_required_consumer_liveness :
      ℕ → RequiredConsumerLivenessConfig → Managed E → Managed E
  unfolding new_state
  enable_required_consumer_liveness now config m = record m {
    required_consumer_liveness = some (new_state now config);
  }

  unfoldable pub ensure_required_consumers_ready :
      ℕ → ℕ → List View → Managed E → Outcome (Result (Unit {0}) RequiredConsumerError × Managed E)
  unfolding ready_loop
  ensure_required_consumers_ready instant_max now views m = elim m.required_consumer_liveness [
    | none ↦ done (ok tt, m)
    | some st ↦ if st.startup_completed then done (ok tt, m) else do
      deadline ← expect (checked_add_instant instant_max now st.config.startup_wait_timeout)
      waited ← ready_loop views deadline st m.producer.consumer_barrier
      done (
        waited.0,
        record {
          producer = with_barrier m.producer waited.2;
          required_consumer_liveness = some waited.1;
        },
      )
  ]

  unfoldable pub check_required_consumer_liveness :
      View → Managed E → Outcome (Result (Unit {0}) RequiredConsumerError × Managed E)
  unfolding evaluate_blocked
  check_required_consumer_liveness v m = elim m.required_consumer_liveness [
    | none ↦ done (ok tt, m)
    | some st ↦ do
      verdict ←
          evaluate_blocked (look v) v.now m.producer.producer_sequence st
            m.producer.consumer_barrier
      done (
        elim verdict.failure [ none ↦ ok tt | some error ↦ err error ],
        record {
          producer = with_barrier m.producer verdict.seen;
          required_consumer_liveness = some verdict.state;
        },
      )
  ]

  -- The loop of `publish_managed`: a reservation, and a check where that fails.
  unfoldable pub managed_loop :
      List (View × View)
      → (E → E)
      → Managed E
      → Outcome (Result ℤ RequiredConsumerError × Managed E)
  unfolding next_sequences apply_update check_required_consumer_liveness
  managed_loop [] update m = blocked
  managed_loop ((v, u) ∷ rounds) update m = do
    reserved ← next_sequences v 1 m.producer
    elim reserved.0 [
      | ok _ ↦ do
        applied ← apply_update update reserved.1
        done (ok applied.0, record m { producer = applied.1 })
      | err _ ↦ do
        checked ← check_required_consumer_liveness u (record m { producer = reserved.1 })
        elim checked.0 [
          | err error ↦ done (err error, checked.1)
          | ok _ ↦ managed_loop rounds update checked.1
        ]
    ]

  unfoldable pub publish_managed :
      ℕ
      → ℕ
      → List View
      → List (View × View)
      → (E → E)
      → Managed E
      → Outcome (Result ℤ RequiredConsumerError × Managed E)
  unfolding ensure_required_consumers_ready managed_loop
  publish_managed instant_max now views rounds update m = do
    ready ← ensure_required_consumers_ready instant_max now views m
    elim ready.0 [
      | err error ↦ done (err error, ready.1)
      | ok _ ↦ managed_loop rounds update ready.1
    ]

  unfoldable pub batch_managed_loop :
      List (View × View)
      → ℕ
      → (ℕ → E → E)
      → Managed E
      → Outcome (Result ℤ RequiredConsumerError × Managed E)
  unfolding next_sequences apply_batch_updates check_required_consumer_liveness
  batch_managed_loop [] n update_fn m = blocked
  batch_managed_loop ((v, u) ∷ rounds) n update_fn m = do
    reserved ← next_sequences v n m.producer
    elim reserved.0 [
      | ok _ ↦ do
        applied ← apply_batch_updates n update_fn reserved.1
        done (ok applied.0, record m { producer = applied.1 })
      | err _ ↦ do
        checked ← check_required_consumer_liveness u (record m { producer = reserved.1 })
        elim checked.0 [
          | err error ↦ done (err error, checked.1)
          | ok _ ↦ batch_managed_loop rounds n update_fn checked.1
        ]
    ]

  unfoldable pub publish_batch_managed :
      ℕ
      → ℕ
      → List View
      → List (View × View)
      → ℕ
      → (ℕ → E → E)
      → Managed E
      → Outcome (Result ℤ RequiredConsumerError × Managed E)
  unfolding ensure_required_consumers_ready batch_managed_loop
  publish_batch_managed instant_max now views rounds n update_fn m =
      if n == 0 then done (ok (sub_i64 m.producer.sequence (pos 1)), m) else do
        ready ← ensure_required_consumers_ready instant_max now views m
        elim ready.0 [
          | err error ↦ done (err error, ready.1)
          | ok _ ↦ batch_managed_loop rounds n update_fn ready.1
        ]
