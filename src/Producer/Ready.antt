-- ===== src/Producer/Ready.antt =====
-- The startup of managed publishing.
use myelon.Common.{
  ℕ, ◌+◌, ◌≡◌, ◌≢◌, ◌≤◌, refl, arith, leb, Bool, true, false, Option, none, some, List, [], ◌∷◌,
  if◌then◌else◌,
}
use myelon.Common.Outcome.{Outcome, done, ◌>>=◌, NoPanic, NoPanic->>=, NoPanic-if, NoPanic-after}
use myelon.Common.Result.{Result, ok, err}
use myelon.Barrier.{Barrier, View}
use myelon.Liveness.Defs.{
  RequiredConsumerError, RequiredConsumerLivenessState, missing_required_consumers, seed_progress,
  mark_startup_completed,
}
use myelon.Liveness.Watch.{IsWatched}
use myelon.Liveness.Start.{seed_progress-Ends}
use myelon.Producer.Managed.{
  Managed, find, look, with_barrier, ready_loop, ensure_required_consumers_ready,
}
use myelon.Common.Text.{Text}
use myelon.Producer.Defs.{expect, checked_add_instant}
use myelon.Producer.Missing.{unknown_of, missing_of-eq-unknown_of}
use myelon.Producer.Kept.{SameEvents, Guards, IsGuarded}

-- The error of a startup that took too long names exactly the required consumers that the producer does
-- not know.
abbrev pub Late : RequiredConsumerLivenessState → Barrier → RequiredConsumerError → Type 0
Late st b (RequiredConsumerError.startup_timeout missing) =
    (missing ≡ unknown_of b st.config.required_consumer_ids) × (missing ≢ [])
Late st b
      (RequiredConsumerError.graceful_shutdown_triggered consumer_id last_sequence stalled_for) =
    ⊥

abbrev pub LateStart :
    Option RequiredConsumerLivenessState → Barrier → RequiredConsumerError → Type 0
LateStart none b error = ⊥
LateStart (some st) b error = Late st b error

abbrev pub Started : Option RequiredConsumerLivenessState → Type 0
Started none = Unit
Started (some st) = st.startup_completed ≡ true

abbrev pub Startup :
    Result (Unit {0}) RequiredConsumerError
    → Option RequiredConsumerLivenessState
    → Barrier
    → Type 0
Startup (ok _) o b = Started o
Startup (err error) o b = LateStart o b error

-- The deadline of a startup that is still to come is an instant.
abbrev pub Fits : ℕ → ℕ → Option RequiredConsumerLivenessState → Type 0
Fits instant_max now none = Unit
Fits instant_max now (some st) =
    if st.startup_completed then Unit else (now + st.config.startup_wait_timeout ≤ instant_max)

abbrev Waited :
    Result (Unit {0}) RequiredConsumerError → RequiredConsumerLivenessState → Barrier → Type 0
Waited (ok _) st b = st.startup_completed ≡ true
Waited (err error) st b = Late st b error

ready_loop-NoPanic :
    (views : List View) (deadline : ℕ) (st : RequiredConsumerLivenessState) (b : Barrier)
    → IsWatched st
    → NoPanic (λ r. IsWatched r.1 × Waited r.0 r.1 r.2) (ready_loop views deadline st b)
unfolding ready_loop missing_required_consumers
ready_loop-NoPanic [] deadline st b w = tt
ready_loop-NoPanic (v ∷ views) deadline st b w =
    looked ((missing_required_consumers (find v) st b).0)
      ((missing_required_consumers (find v) st b).1) (leb deadline v.now)
      (missing_of-eq-unknown_of v st.config.required_consumer_ids b)
      (λ b'. ready_loop-NoPanic views deadline st b' w)
  where
    Ready :
        Result (Unit {0}) RequiredConsumerError × RequiredConsumerLivenessState × Barrier → Type 0
    Ready r = IsWatched r.1 × Waited r.0 r.1 r.2

    seeded_so :
        (seeded : RequiredConsumerLivenessState × Barrier)
        → IsWatched seeded.0
        → Ready (ok tt, mark_startup_completed v.now seeded.0, seeded.1)
    seeded_so seeded watched =
        unfold mark_startup_completed in
        (
          record { positive = watched.positive; covered = watched.covered; timed = watched.timed },
          refl,
        )

    looked :
        (missing : List Text) (b' : Barrier) (late : Bool)
        → missing ≡ unknown_of b' st.config.required_consumer_ids
        → ((c : Barrier) → NoPanic Ready (ready_loop views deadline st c))
        → NoPanic Ready
            (elim missing
              as (λ _. Outcome (
                Result (Unit {0}) RequiredConsumerError
                × RequiredConsumerLivenessState
                × Barrier)) [
                  | [] ↦
                      (seed_progress (look v) v.now st b' >>= λ seeded.
                      done (ok tt, mark_startup_completed v.now seeded.0, seeded.1))
                  | consumer_id ∷ ids ↦ elim late [
                    | true ↦
                        done
                          (err (RequiredConsumerError.startup_timeout (consumer_id ∷ ids)), st, b')
                    | false ↦ ready_loop views deadline st b'
                  ]
                ])
    looked [] b' late named rest =
        NoPanic-after {A = RequiredConsumerLivenessState × Barrier} (λ r. IsWatched r.0) Ready
          (seed_progress (look v) v.now st b')
          (λ seeded. done (ok tt, mark_startup_completed v.now seeded.0, seeded.1))
          (seed_progress-Ends (look v) v.now st b' w) seeded_so
    looked (consumer_id ∷ ids) b' true named rest = (w, (named, λ e. cc e))
    looked (consumer_id ∷ ids) b' false named rest = rest b'

module _ {E : Type 0} where
  abbrev pub Prepared : Managed E → Result (Unit {0}) RequiredConsumerError × Managed E → Type 0
  Prepared m r =
      SameEvents m.producer r.1.producer
      × IsGuarded r.1
      × Startup r.0 r.1.required_consumer_liveness r.1.producer.consumer_barrier

  pub ensure-NoPanic :
      (instant_max now : ℕ) (views : List View) (m : Managed E)
      → IsGuarded m
      → Fits instant_max now m.required_consumer_liveness
      → NoPanic (Prepared m) (ensure_required_consumers_ready instant_max now views m)
  unfolding ensure_required_consumers_ready
  ensure-NoPanic instant_max now views m h fits = watching m.required_consumer_liveness h fits refl
    where
      awaited :
          (r : Result (Unit {0}) RequiredConsumerError) (st : RequiredConsumerLivenessState)
          (b : Barrier)
          → Waited r st b
          → Startup r (some st) b
      awaited (ok _) st b h = h
      awaited (err error) st b h = h

      watching :
          (o : Option RequiredConsumerLivenessState)
          → Guards o
          → Fits instant_max now o
          → m.required_consumer_liveness ≡ o
          → NoPanic
              (Prepared m)
              (elim o as (λ _. Outcome (Result (Unit {0}) RequiredConsumerError × Managed E)) [
                | none ↦ done (ok tt, m)
                | some st ↦
                    if st.startup_completed
                    then done (ok tt, m)
                    else (expect
                          (checked_add_instant instant_max now st.config.startup_wait_timeout)
                        >>= λ deadline.
                            ready_loop views deadline st m.producer.consumer_barrier >>= λ waited.
                            done (
                              waited.0,
                              record {
                                producer = with_barrier m.producer waited.2;
                                required_consumer_liveness = some waited.1;
                              },
                            ))
              ])
      watching none h fits e = ((refl, refl, refl, refl), rw e tt, rw e tt)
      watching (some st) h fits e =
          NoPanic-if (Prepared m) st.startup_completed _ _
            (λ started. ((refl, refl, refl, refl), rw e h, rw e started))
            (λ waits. rw (in_time waits) (
              NoPanic->>=
                {A = Result (Unit {0}) RequiredConsumerError
                  × RequiredConsumerLivenessState
                  × Barrier}
                (λ r. IsWatched r.1 × Waited r.0 r.1 r.2) (Prepared m) _ _
                (ready_loop-NoPanic views (now + st.config.startup_wait_timeout) st
                  m.producer.consumer_barrier h)
                (λ waited ready.
                  ((refl, refl, refl, refl), ready.0, awaited waited.0 waited.1 waited.2 ready.1))))
        where
          in_time :
              st.startup_completed ≡ false
              → leb (now + st.config.startup_wait_timeout) instant_max ≡ true
          in_time waits = ground (arith, fits)
