-- ===== src/Producer/Stuck.antt =====
-- Managed publishing with a required consumer that is stuck.
use myelon.Common.{
  ℕ, suc, ◌+◌, ◌^◌, ◌≤◌, ◌<◌, ◌≡◌, refl, sym, subst, arith, ne→==, true, inr, Option, none, some,
  List, ◌∷◌,
}
use myelon.Common.Int.{ℤ}
use myelon.Common.Outcome.{Outcome, done, ◌>>=◌, Ends, Ends->>=, Ends-weaken, Ends-both}
use myelon.Common.Result.{Result, ok, err}
use myelon.Barrier.{View}
use myelon.Liveness.Defs.{RequiredConsumerError, RequiredConsumerLivenessState}
use myelon.Producer.Defs.{Producer, apply_update, apply_batch_updates}
use myelon.Producer.Reserve.{IsValid}
use myelon.Producer.Managed.{
  Managed, ensure_required_consumers_ready, check_required_consumer_liveness, managed_loop,
  publish_managed,
}
use myelon.Producer.Kept.{
  SameEvents, SameEvents-trans, Guards, IsGuarded, Answers, next_sequences-Grows,
  check_required_consumer_liveness-Ends,
}
use myelon.Producer.Round.{Settled}
use myelon.Common.Text.{Text}
use myelon.Liveness.Judge.{Behind}
use myelon.Liveness.Stall.{Awaits, IsLate}
use myelon.Producer.Settle.{Wrote, apply_update-Wrote}
use myelon.Producer.Managed.{publish_batch_managed, batch_managed_loop}
use myelon.Producer.SettleBatch.{WroteBatch, apply_batch_updates-Wrote}
use myelon.Producer.Round.{round}
use myelon.Barrier.Known.{Grows}
use myelon.Barrier.Unique.{IsKnown}
use myelon.Producer.Look.{Knows, Grows-Knows, own}
use myelon.Producer.Checks.{Watches, check_once, check_twice}

module _ {E : Type 0} where
  -- Two rounds, for any way to write `n` events.
  module _ (Granted : ℤ → Producer E → Type 0) (p : Producer E) (n : ℕ) (positive : 0 < n)
      (write : Producer E → Outcome (ℤ × Producer E))
      (writes : (p' : Producer E) → SameEvents p p' → Ends (λ a. Granted a.0 a.1) (write p')) where
    abbrev Good : Result ℤ RequiredConsumerError × Managed E → Type 0
    Good s = Settled Granted p s.0 s.1

    abbrev Checked :
        (Managed E → Outcome (Result ℤ RequiredConsumerError × Managed E))
        → Result (Unit {0}) RequiredConsumerError × Managed E
        → Type 0
    Checked rest r = Ends Good (elim r.0 [ err error ↦ done (err error, r.1) | ok _ ↦ rest r.1 ])

    round-Ends :
        (v u : View) (rest : Managed E → Outcome (Result ℤ RequiredConsumerError × Managed E))
        (m : Managed E)
        → SameEvents p m.producer
        → IsGuarded m
        → ((p' : Producer E)
            → SameEvents p p'
            → Grows m.producer.consumer_barrier p'.consumer_barrier
            → Ends (Checked rest) (check_required_consumer_liveness u (record m { producer = p' })))
        → Ends Good (round Granted p n positive write writes v u rest m)
    round-Ends v u rest m same h checks =
        Ends->>= {A = Result ℤ ℕ × Producer E}
          (λ r. SameEvents m.producer r.1 × Grows m.producer.consumer_barrier r.1.consumer_barrier)
          Good _ _ (next_sequences-Grows v n m.producer positive)
          (λ reserved kept.
            granted reserved.0 reserved.1 (SameEvents-trans p m.producer reserved.1 same kept.0)
              kept.1)
      where
        wrote :
            (a : ℤ × Producer E)
            → Granted a.0 a.1
            → Settled Granted p (ok a.0) (record m { producer = a.1 })
        wrote a g = (g, h)

        granted :
            (r : Result ℤ ℕ) (p' : Producer E)
            → SameEvents p p'
            → Grows m.producer.consumer_barrier p'.consumer_barrier
            → Ends Good (elim r [
              | ok _ ↦
                  (write p' >>= λ applied. done (ok applied.0, record m { producer = applied.1 }))
              | err _ ↦
                  (check_required_consumer_liveness u (record m { producer = p' }) >>= λ checked.
                  elim checked.0 [
                    | err error ↦ done (err error, checked.1)
                    | ok _ ↦ rest checked.1
                  ])
            ])
        granted (ok _) p' kept grown =
            Ends->>= {A = ℤ × Producer E} (λ a. Granted a.0 a.1) Good (write p')
              (λ applied. done (ok applied.0, record m { producer = applied.1 })) (writes p' kept)
              wrote
        granted (err _) p' kept grown =
            Ends->>= {A = Result (Unit {0}) RequiredConsumerError × Managed E} (Checked rest) Good
              (check_required_consumer_liveness u (record m { producer = p' }))
              (λ checked. elim checked.0 [
                | err error ↦ done (err error, checked.1)
                | ok _ ↦ rest checked.1
              ])
              (checks p' kept grown) (λ checked fine. fine)

    -- The second round ends, and so does the first.
    module _ (base_name k : Text) (last : ℤ) (at : ℕ) (m : Managed E)
        (known : Knows base_name m.producer.consumer_barrier) (same : SameEvents p m.producer)
        (h : IsGuarded m) (st : RequiredConsumerLivenessState)
        (watched : m.required_consumer_liveness ≡ some st) where
      second_round :
          (v u : View) (rest : Managed E → Outcome (Result ℤ RequiredConsumerError × Managed E))
          (first : ℕ)
          → Behind (some (own u base_name k)) last p.producer_sequence
          → Awaits first k last at st
          → first + st.config.progress_check_interval ≤ u.now
          → first + st.config.shutdown_grace_period ≤ u.now
          → Ends Good (round Granted p n positive write writes v u rest m)
      second_round v u rest first stuck awaits interval grace =
          round-Ends v u rest m same h λ p' kept grown. Ends-weaken _ _ _ (reported p' kept) (
            Ends-both _ _ _ (check_required_consumer_liveness-Ends u (record m { producer = p' }) h)
              (check_twice u p.producer_sequence base_name k last at stuck
                (record m { producer = p' })
                (Grows-Knows base_name m.producer.consumer_barrier p'.consumer_barrier grown known)
                kept.1 st watched first awaits interval grace))
        where
          reported_by :
              (p' : Producer E)
              → SameEvents p p'
              → (r : Result (Unit {0}) RequiredConsumerError) (m' : Managed E)
              → SameEvents p' m'.producer × IsGuarded m' × Answers m' r
              → (error : RequiredConsumerError) → r ≡ err error
              → Checked rest (r, m')
          reported_by p' kept (err _) m' (k, g, a) error e =
              (SameEvents-trans p p' m'.producer kept k, g, inr a)
          reported_by p' kept (ok _) m' (k, g, a) error e = absurd (cc)

          reported :
              (p' : Producer E)
              → SameEvents p p'
              → (r : Result (Unit {0}) RequiredConsumerError × Managed E)
              → (SameEvents p' r.1.producer × IsGuarded r.1 × Answers r.1 r.0)
                × ((error : RequiredConsumerError) × (r.0 ≡ err error))
              → Checked rest r
          reported p' kept r (fine, (error, e)) = reported_by p' kept r.0 r.1 fine error e

    first_round :
        (base_name k : Text) (last : ℤ) (at : ℕ) (m : Managed E)
        → Knows base_name m.producer.consumer_barrier
        → SameEvents p m.producer
        → IsGuarded m
        → (st : RequiredConsumerLivenessState) → m.required_consumer_liveness ≡ some st
        → (v u w x : View) (rest : Managed E → Outcome (Result ℤ RequiredConsumerError × Managed E))
        → Behind (some (own u base_name k)) last p.producer_sequence
        → Behind (some (own x base_name k)) last p.producer_sequence
        → IsLate u.now k last at st
        → u.now + st.config.progress_check_interval ≤ x.now
        → u.now + st.config.shutdown_grace_period ≤ x.now
        → Ends Good (
            round Granted p n positive write writes v u
              (round Granted p n positive write writes w x rest)
              m)
    first_round base_name k last at m known same h st watched v u w x rest stuck stuck_later late
          interval grace =
        round-Ends v u (round Granted p n positive write writes w x rest) m same h λ p' kept grown.
          Ends-weaken {A = Result (Unit {0}) RequiredConsumerError × Managed E} _ _ _
            (λ r both. checked p' kept r.0 r.1 both.0 r.1.required_consumer_liveness refl both.1)
            (Ends-both _ _ _
              (check_required_consumer_liveness-Ends u (record m { producer = p' }) h)
              (check_once u p.producer_sequence base_name k last at stuck
                (record m { producer = p' })
                (Grows-Knows base_name m.producer.consumer_barrier p'.consumer_barrier grown known)
                kept.1 st watched late))
      where
        checked :
            (p' : Producer E)
            → SameEvents p p'
            → (r : Result (Unit {0}) RequiredConsumerError) (m' : Managed E)
            → SameEvents p' m'.producer × IsGuarded m' × Answers m' r
            → (o : Option RequiredConsumerLivenessState) → m'.required_consumer_liveness ≡ o
            → Watches (λ st'. Awaits u.now k last at st' × (st'.config ≡ st.config)) o
              × Knows base_name m'.producer.consumer_barrier
            → Checked (round Granted p n positive write writes w x rest) (r, m')
        checked p' kept (err _) m' (k, g, a) o e b =
            (SameEvents-trans p p' m'.producer kept k, g, inr a)
        checked p' kept (ok _) m' fine none e b = elim b.0 [ ]
        checked p' kept (ok _) m' (kept', g, a) (some st') e ((awaits, config), known') =
            second_round base_name k last at m' known'
              (SameEvents-trans p p' m'.producer kept kept') g st' e w x rest u.now stuck_later
              awaits (rw config interval) (rw config grace)

  started_lem :
      (instant_max now : ℕ) (views : List View) (m : Managed E) (st : RequiredConsumerLivenessState)
      → m.required_consumer_liveness ≡ some st
      → st.startup_completed ≡ true
      → ensure_required_consumers_ready instant_max now views m ≡ done (ok tt, m)
  unfolding ensure_required_consumers_ready
  started_lem instant_max now views m st watched started = ground arith

  -- A producer at work whose startup is over, and whose barrier knows each of its consumers once,
  -- watches over required consumers, and one of these is stuck: at both checks its own cursor is not
  -- beyond its entry and is behind what the producer has published. Then `publish_managed`, and
  -- `publish_batch_managed` of some events for which there is room below 2 ^ 61, return with a sequence
  -- or an error as soon as they have had two rounds, where the check of the first comes when one is due
  -- and the timeout is over, and that of the second when the check interval and the grace period after
  -- it are over: they do not wait for ever, whatever the cursors of the other consumers do.
  pub publish_managed_stuck :
      (instant_max now : ℕ) (views : List View) (v u w x : View) (rounds : List (View × View))
      (m : Managed E) (valid : IsValid m.producer) (st : RequiredConsumerLivenessState) (k : Text)
      (last : ℤ) (at : ℕ) (update : E → E) (n : ℕ) (update_fn : ℕ → E → E)
      → m.required_consumer_liveness ≡ some st
      → st.startup_completed ≡ true
      → IsKnown m.producer.consumer_barrier
      → Behind
          (some (own u m.producer.consumer_barrier.base_name k))
          last
          m.producer.producer_sequence
      → Behind
          (some (own x m.producer.consumer_barrier.base_name k))
          last
          m.producer.producer_sequence
      → IsLate u.now k last at st
      → u.now + st.config.progress_check_interval ≤ x.now
      → u.now + st.config.shutdown_grace_period ≤ x.now
      → valid.next + suc n ≤ 2 ^ 61
      → Ends
          (λ r. Settled (Wrote m.producer valid update) m.producer r.0 r.1)
          (publish_managed instant_max now views ((v, u) ∷ (w, x) ∷ rounds) update m)
        × Ends
            (λ r. Settled (WroteBatch m.producer valid (suc n) update_fn) m.producer r.0 r.1)
            (publish_batch_managed instant_max now views
              ((v, u) ∷ (w, x) ∷ rounds)
              (suc n)
              update_fn
              m)
  unfolding publish_managed managed_loop publish_batch_managed batch_managed_loop
  publish_managed_stuck instant_max now views v u w x rounds m valid st k last at update n update_fn
        watched started known stuck stuck_later late interval grace room =
      (
        rw (started_lem instant_max now views m st watched started) (
            first_round (Wrote m.producer valid update) m.producer 1 (omega arith)
              (apply_update update) (apply_update-Wrote m.producer valid update)
              m.producer.consumer_barrier.base_name k last at m (known, refl)
              (refl, refl, refl, refl) guarded st watched v u w x (managed_loop rounds update) stuck
              stuck_later late interval grace),
        rw (ne→== (suc n) 0 (omega arith), started_lem instant_max now views m st watched started)
            (first_round (WroteBatch m.producer valid (suc n) update_fn) m.producer (suc n)
              (omega arith) (apply_batch_updates (suc n) update_fn)
              (apply_batch_updates-Wrote m.producer valid n update_fn room)
              m.producer.consumer_barrier.base_name k last at m (known, refl)
              (refl, refl, refl, refl) guarded st watched v u w x
              (batch_managed_loop rounds (suc n) update_fn) stuck stuck_later late interval grace),
      )
    where
      guarded : IsGuarded m
      guarded = subst Guards (sym watched) late.watched
