-- ===== src/Producer/Round.antt =====
-- One round of managed publishing.
use myelon.Common.{ℕ, ◌<◌, ◌⊎◌, inr}
use myelon.Common.Int.{ℤ}
use myelon.Common.Outcome.{Outcome, done, ◌>>=◌, Ends, NoPanic, NoPanic-after}
use myelon.Common.Result.{Result, ok, err}
use myelon.Barrier.{View}
use myelon.Liveness.Defs.{RequiredConsumerError}
use myelon.Producer.Defs.{Producer, next_sequences}
use myelon.Producer.Managed.{Managed, check_required_consumer_liveness}
use myelon.Producer.Kept.{
  SameEvents, SameEvents-trans, IsGuarded, Faulty, Answers, next_sequences-SameEvents,
  check_required_consumer_liveness-Ends,
}
use myelon.Producer.Ready.{LateStart}

module _ {E : Type 0} where
  -- How a call ends that began with the producer `p`.
  abbrev pub Settled :
      (ℤ → Producer E → Type 0) → Producer E → Result ℤ RequiredConsumerError → Managed E → Type 0
  Settled Granted p (ok sequence) m = Granted sequence m.producer × IsGuarded m
  Settled Granted p (err error) m =
      SameEvents p m.producer
      × IsGuarded m
      × (LateStart m.required_consumer_liveness m.producer.consumer_barrier error ⊎ Faulty m error)

  -- One round, for any way to write `n` events.
  module _ (Granted : ℤ → Producer E → Type 0) (p : Producer E) (n : ℕ) (positive : 0 < n)
      (write : Producer E → Outcome (ℤ × Producer E))
      (writes : (p' : Producer E) → SameEvents p p' → Ends (λ a. Granted a.0 a.1) (write p')) where
    abbrev pub round :
        View
        → View
        → (Managed E → Outcome (Result ℤ RequiredConsumerError × Managed E))
        → Managed E
        → Outcome (Result ℤ RequiredConsumerError × Managed E)
    round v u rest m = do
      reserved ← next_sequences v n m.producer
      elim reserved.0 [
        | ok _ ↦ do
          applied ← write reserved.1
          done (ok applied.0, record m { producer = applied.1 })
        | err _ ↦ do
          checked ← check_required_consumer_liveness u (record m { producer = reserved.1 })
          elim checked.0 [ err error ↦ done (err error, checked.1) | ok _ ↦ rest checked.1 ]
      ]

    abbrev pub Done : Result ℤ RequiredConsumerError × Managed E → Type 0
    Done r = Settled Granted p r.0 r.1

    pub round-NoPanic :
        (v u : View) (rest : Managed E → Outcome (Result ℤ RequiredConsumerError × Managed E))
        (m : Managed E)
        → SameEvents p m.producer
        → IsGuarded m
        → ((m' : Managed E) → SameEvents p m'.producer → IsGuarded m' → NoPanic Done (rest m'))
        → NoPanic Done (round v u rest m)
    round-NoPanic v u rest m same h more =
        NoPanic-after {A = Result ℤ ℕ × Producer E} (λ r. SameEvents m.producer r.1) Done _ _
          (next_sequences-SameEvents v n m.producer positive)
          (λ reserved kept.
            granted reserved.0 reserved.1 (SameEvents-trans p m.producer reserved.1 same kept))
      where
        asked :
            (p' : Producer E)
            → SameEvents p p'
            → (r : Result (Unit {0}) RequiredConsumerError) (m' : Managed E)
            → SameEvents p' m'.producer × IsGuarded m' × Answers m' r
            → NoPanic Done (elim r [ err error ↦ done (err error, m') | ok _ ↦ rest m' ])
        asked p' kept (err error) m' (k, g, a) =
            (SameEvents-trans p p' m'.producer kept k, g, inr a)
        asked p' kept (ok _) m' (k, g, a) = more m' (SameEvents-trans p p' m'.producer kept k) g

        applied_so :
            (a : ℤ × Producer E)
            → Granted a.0 a.1
            → Settled Granted p (ok a.0) (record m { producer = a.1 })
        applied_so a done_so = (done_so, h)

        granted :
            (r : Result ℤ ℕ) (p' : Producer E)
            → SameEvents p p'
            → NoPanic Done (elim r [
              | ok _ ↦
                  (write p' >>= λ applied. done (ok applied.0, record m { producer = applied.1 }))
              | err _ ↦
                  (check_required_consumer_liveness u (record m { producer = p' }) >>= λ checked.
                  elim checked.0 [
                    | err error ↦ done (err error, checked.1)
                    | ok _ ↦ rest checked.1
                  ])
            ])
        granted (ok _) p' kept =
            NoPanic-after {A = ℤ × Producer E} (λ a. Granted a.0 a.1) Done (write p')
              (λ applied. done (ok applied.0, record m { producer = applied.1 })) (writes p' kept)
              applied_so
        granted (err _) p' kept =
            NoPanic-after {A = Result (Unit {0}) RequiredConsumerError × Managed E}
              (λ r. SameEvents p' r.1.producer × IsGuarded r.1 × Answers r.1 r.0) Done
              (check_required_consumer_liveness u (record m { producer = p' }))
              (λ checked. elim checked.0 [
                | err error ↦ done (err error, checked.1)
                | ok _ ↦ rest checked.1
              ])
              (check_required_consumer_liveness-Ends u (record m { producer = p' }) h)
              (λ checked a. asked p' kept checked.0 checked.1 a)
