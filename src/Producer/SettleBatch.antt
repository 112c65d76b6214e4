-- ===== src/Producer/SettleBatch.antt =====
-- Managed publishing of batches, on every branch.
use myelon.Common.{
  ℕ, suc, ◌+◌, ◌-◌, ◌^◌, ◌≤◌, ◌≡◌, refl, sym, ◌∙◌, subst, ap, arith, ◌==◌, inl, List, [], ◌∷◌,
}
use myelon.Common.Int.{ℤ, pos}
use myelon.Common.Word.{sub_i64}
use myelon.Common.Outcome.{done, ◌>>=◌, Ends, NoPanic, NoPanic->>=, NoPanic-if}
use myelon.Common.Result.{Result, ok, err}
use myelon.Barrier.{View}
use myelon.Liveness.Defs.{RequiredConsumerError}
use myelon.Ring.Laws.{IsRing}
use myelon.Producer.Defs.{Producer, apply_batch_updates}
use myelon.Producer.Reserve.{IsValid}
use myelon.Producer.Write.{moved}
use myelon.Producer.Managed.{Managed, ensure_required_consumers_ready}
use myelon.Producer.Kept.{SameEvents, IsGuarded}
use myelon.Producer.Ready.{Fits, Prepared, ensure-NoPanic}
use myelon.Producer.Round.{Settled, round-NoPanic}
use myelon.Producer.Managed.{batch_managed_loop, publish_batch_managed}
use myelon.Producer.Write.{written, batch_lem}

module _ {E : Type 0} where
  -- The events that one call writes, in order, each into the slot of its sequence.
  abbrev pub WroteBatch : (p : Producer E) → IsValid p → ℕ → (ℕ → E → E) → ℤ → Producer E → Type 0
  WroteBatch p valid n update_fn sequence p' =
      (sequence ≡ pos (valid.next + n - 1))
      × (p'.producer_sequence ≡ sequence)
      × (p'.sequence ≡ pos (valid.next + n))
      × (p'.slots ≡ written p.ring_buffer.size update_fn p.slots valid.next 0 n)

  pub apply_batch_updates-Wrote :
      (p : Producer E) (valid : IsValid p) (n : ℕ) (update_fn : ℕ → E → E)
      → valid.next + suc n ≤ 2 ^ 61
      → (p' : Producer E) → SameEvents p p'
      → Ends
          (λ a. WroteBatch p valid (suc n) update_fn a.0 a.1)
          (apply_batch_updates (suc n) update_fn p')
  apply_batch_updates-Wrote p valid n update_fn small p' (slots, published, next, ring) =
      let same : p' ≡ moved p' p'.slots p'.producer_sequence (pos valid.next) =
        ap (λ z. moved p' p'.slots p'.producer_sequence z) (next ∙ valid.next_eq) in
      let wrote =
        ap (apply_batch_updates (suc n) update_fn) same
        ∙ batch_lem p' update_fn n valid.next p'.slots p'.producer_sequence
            (subst IsRing (sym ring) valid.ring) small in
      rw wrote (ap pos (omega arith), refl, refl, rw (slots, ring) refl)

  batch_managed_loop-NoPanic :
      (rounds : List (View × View)) (n : ℕ) (update_fn : ℕ → E → E) (p : Producer E)
      (valid : IsValid p) (m : Managed E)
      → valid.next + suc n ≤ 2 ^ 61
      → SameEvents p m.producer
      → IsGuarded m
      → NoPanic
          (λ r. Settled (WroteBatch p valid (suc n) update_fn) p r.0 r.1)
          (batch_managed_loop rounds (suc n) update_fn m)
  unfolding batch_managed_loop
  batch_managed_loop-NoPanic [] n update_fn p valid m small same h = tt
  batch_managed_loop-NoPanic ((v, u) ∷ rounds) n update_fn p valid m small same h =
      round-NoPanic (WroteBatch p valid (suc n) update_fn) p (suc n) (omega arith)
        (apply_batch_updates (suc n) update_fn)
        (apply_batch_updates-Wrote p valid n update_fn small) v u
        (batch_managed_loop rounds (suc n) update_fn) m same h
        (λ m' same' h'. batch_managed_loop-NoPanic rounds n update_fn p valid m' small same' h')

  -- `publish_batch_managed` of no events returns at once, with the sequence before the next one, and
  -- changes nothing; a batch of some events, on a producer at work that has room for its sequences below
  -- 2 ^ 61, whose watch is well-formed where it has one, with a startup deadline that an instant
  -- represents where the startup is still to come, never panics: it waits, or it returns. With a
  -- sequence, that is the last of the batch: each event is written in order to the slot of its sequence,
  -- nothing else in the ring changes, the last sequence is published, and the one after it is next. With
  -- an error, no slot, no sequence and no published cursor has changed, and the error is the one that the
  -- watch has ended with, or a startup timeout, which names exactly the required consumers that the
  -- producer does not know in the end, at least one.
  pub publish_batch_managed-NoPanic :
      (instant_max now : ℕ) (views : List View) (rounds : List (View × View)) (n : ℕ)
      (update_fn : ℕ → E → E) (m : Managed E) (valid : IsValid m.producer)
      → valid.next + suc n ≤ 2 ^ 61
      → IsGuarded m
      → Fits instant_max now m.required_consumer_liveness
      → (publish_batch_managed instant_max now views rounds 0 update_fn m
          ≡ done (ok (sub_i64 m.producer.sequence (pos 1)), m))
        × NoPanic
            (λ r. Settled (WroteBatch m.producer valid (suc n) update_fn) m.producer r.0 r.1)
            (publish_batch_managed instant_max now views rounds (suc n) update_fn m)
  unfolding publish_batch_managed
  publish_batch_managed-NoPanic instant_max now views rounds n update_fn m valid small h fits = (
    refl,
    NoPanic-if (λ r. Settled (WroteBatch m.producer valid (suc n) update_fn) m.producer r.0 r.1)
        (suc n == 0) _ _ (λ e. absurd (ground arith)) (λ _. some_events),
  )
    where
      go :
          (r : Result (Unit {0}) RequiredConsumerError) (m' : Managed E)
          → Prepared m (r, m')
          → NoPanic
              (λ r. Settled (WroteBatch m.producer valid (suc n) update_fn) m.producer r.0 r.1)
              (elim r [
                | err error ↦ done (err error, m')
                | ok _ ↦ batch_managed_loop rounds (suc n) update_fn m'
              ])
      go (ok _) m' prepared =
          batch_managed_loop-NoPanic rounds n update_fn m.producer valid m' small prepared.0
            prepared.1
      go (err error) m' prepared = (prepared.0, prepared.1, inl prepared.2)

      some_events :
          NoPanic
            (λ r. Settled (WroteBatch m.producer valid (suc n) update_fn) m.producer r.0 r.1)
            (do
              ready ← ensure_required_consumers_ready instant_max now views m
              elim ready.0 [
                | err error ↦ done (err error, ready.1)
                | ok _ ↦ batch_managed_loop rounds (suc n) update_fn ready.1
              ])
      some_events =
          NoPanic->>= {A = Result (Unit {0}) RequiredConsumerError × Managed E} (Prepared m)
            (λ r. Settled (WroteBatch m.producer valid (suc n) update_fn) m.producer r.0 r.1)
            (ensure_required_consumers_ready instant_max now views m)
            (λ ready. elim ready.0 [
              | err error ↦ done (err error, ready.1)
              | ok _ ↦ batch_managed_loop rounds (suc n) update_fn ready.1
            ])
            (ensure-NoPanic instant_max now views m h fits)
            (λ ready prepared. go ready.0 ready.1 prepared)
