-- ===== src/Producer/Settle.antt =====
-- The calls of managed publishing, on every branch.
use myelon.Common.{ℕ, ◌+◌, ◌%◌, ◌≡◌, refl, sym, ◌∙◌, subst, arith, inl, List, [], ◌∷◌}
use myelon.Common.Int.{ℤ, pos}
use myelon.Common.Outcome.{done, Ends, NoPanic, NoPanic->>=}
use myelon.Common.Result.{Result, ok, err}
use myelon.Barrier.{View}
use myelon.Liveness.Defs.{RequiredConsumerError}
use myelon.Ring.Laws.{IsRing}
use myelon.Producer.Defs.{Producer, apply_update, update_slot}
use myelon.Producer.Reserve.{IsValid}
use myelon.Producer.Write.{apply_update-moved}
use myelon.Producer.Managed.{Managed, managed_loop, publish_managed}
use myelon.Producer.Kept.{SameEvents, IsGuarded}
use myelon.Producer.Ready.{Fits, Prepared, ensure-NoPanic}
use myelon.Producer.Round.{Settled, round-NoPanic}

module _ {E : Type 0} where
  -- The event that one call writes.
  abbrev pub Wrote : (p : Producer E) → IsValid p → (E → E) → ℤ → Producer E → Type 0
  Wrote p valid update sequence p' =
      (sequence ≡ p.sequence)
      × (p'.producer_sequence ≡ sequence)
      × (p'.sequence ≡ pos (valid.next + 1))
      × (p'.slots ≡ update_slot p.slots (valid.next % p.ring_buffer.size) update)

  pub apply_update-Wrote :
      (p : Producer E) (valid : IsValid p) (update : E → E) (p' : Producer E)
      → SameEvents p p'
      → Ends (λ a. Wrote p valid update a.0 a.1) (apply_update update p')
  apply_update-Wrote p valid update p' (slots, published, next, ring) =
      let valid' : IsValid p' = record {
        ring = subst IsRing (sym ring) valid.ring;
        next = valid.next;
        next_eq = next ∙ valid.next_eq;
        small = valid.small;
      } in
      rw (apply_update-moved p' update valid')
        (sym valid.next_eq, refl, refl, rw (slots, ring) refl)

  managed_loop-NoPanic :
      (rounds : List (View × View)) (update : E → E) (p : Producer E) (valid : IsValid p)
      (m : Managed E)
      → SameEvents p m.producer
      → IsGuarded m
      → NoPanic (λ r. Settled (Wrote p valid update) p r.0 r.1) (managed_loop rounds update m)
  unfolding managed_loop
  managed_loop-NoPanic [] update p valid m same h = tt
  managed_loop-NoPanic ((v, u) ∷ rounds) update p valid m same h =
      round-NoPanic (Wrote p valid update) p 1 (omega arith) (apply_update update)
        (apply_update-Wrote p valid update) v u (managed_loop rounds update) m same h
        (λ m' same' h'. managed_loop-NoPanic rounds update p valid m' same' h')

  -- `publish_managed` on a producer at work, whose watch is well-formed where it has one, with a startup
  -- deadline that an instant represents where the startup is still to come, never panics: it waits, or
  -- it returns. With a sequence, that is the producer's next one: the event is written to its slot and
  -- nothing else in the ring changes, the sequence is published, and the next one is due. With an error,
  -- no slot, no sequence and no published cursor has changed, and the error is the one that the watch
  -- has ended with, or a startup timeout, which names exactly the required consumers that the producer
  -- does not know in the end, at least one. Either way the watch stays well-formed.
  pub publish_managed-NoPanic :
      (instant_max now : ℕ) (views : List View) (rounds : List (View × View)) (update : E → E)
      (m : Managed E) (valid : IsValid m.producer)
      → IsGuarded m
      → Fits instant_max now m.required_consumer_liveness
      → NoPanic
          (λ r. Settled (Wrote m.producer valid update) m.producer r.0 r.1)
          (publish_managed instant_max now views rounds update m)
  unfolding publish_managed
  publish_managed-NoPanic instant_max now views rounds update m valid h fits =
      NoPanic->>= {A = Result (Unit {0}) RequiredConsumerError × Managed E} (Prepared m)
        (λ r. Settled (Wrote m.producer valid update) m.producer r.0 r.1) _ _
        (ensure-NoPanic instant_max now views m h fits)
        (λ ready prepared. go ready.0 ready.1 prepared)
    where
      go :
          (r : Result (Unit {0}) RequiredConsumerError) (m' : Managed E)
          → Prepared m (r, m')
          → NoPanic
              (λ r. Settled (Wrote m.producer valid update) m.producer r.0 r.1)
              (elim r [ err error ↦ done (err error, m') | ok _ ↦ managed_loop rounds update m' ])
      go (ok _) m' prepared =
          managed_loop-NoPanic rounds update m.producer valid m' prepared.0 prepared.1
      go (err error) m' prepared = (prepared.0, prepared.1, inl prepared.2)
