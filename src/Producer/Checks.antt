-- ===== src/Producer/Checks.antt =====
-- A check of managed publishing, with a required consumer that is stuck.
use myelon.Common.{ℕ, ◌+◌, ◌≤◌, ◌≡◌, refl, Option, none, some}
use myelon.Common.Int.{ℤ}
use myelon.Common.Outcome.{done, ◌>>=◌, Ends, Ends->>=}
use myelon.Common.Result.{Result, ok, err}
use myelon.Barrier.{Barrier, View}
use myelon.Liveness.Defs.{RequiredConsumerError, RequiredConsumerLivenessState}
use myelon.Producer.Defs.{Producer}
use myelon.Producer.Managed.{Managed, look, with_barrier, check_required_consumer_liveness}
use myelon.Common.Text.{Text}
use myelon.Liveness.Defs.{Verdict, evaluate_blocked}
use myelon.Liveness.Judge.{Behind}
use myelon.Liveness.Seen.{Returns, Ends-Returns, evaluate_blocked-Seen}
use myelon.Producer.Look.{Knows, own, look_own, look-Knows, look-eq-look_own, look_own-Behind}
use myelon.Liveness.Stall.{Reported, Awaits, IsLate, second_check, first_check}

abbrev pub Watches :
    (RequiredConsumerLivenessState → Type 0) → Option RequiredConsumerLivenessState → Type 0
Watches P none = ⊥
Watches P (some st) = P st

module _ {E : Type 0} where
  -- A check on a state, as the watch's own.
  abbrev after_check :
      Producer E → Verdict Barrier → Result (Unit {0}) RequiredConsumerError × Managed E
  after_check p verdict = (
    elim verdict.failure [ none ↦ ok tt | some error ↦ err error ],
    record {
      producer = with_barrier p verdict.seen;
      required_consumer_liveness = some verdict.state;
    },
  )

  check_some :
      (u : View) (m : Managed E) (st : RequiredConsumerLivenessState)
      → m.required_consumer_liveness ≡ some st
      → check_required_consumer_liveness u m ≡ (
          evaluate_blocked
            (look u)
            u.now
            m.producer.producer_sequence
            st
            m.producer.consumer_barrier
          >>= λ verdict. done (after_check m.producer verdict))
  unfolding check_required_consumer_liveness
  check_some u m st e = rw e refl

  module _ (u : View) (q : ℤ) (base_name k : Text) (last : ℤ) (at : ℕ)
      (stuck : Behind (some (own u base_name k)) last q) (m : Managed E)
      (known : Knows base_name m.producer.consumer_barrier)
      (published : m.producer.producer_sequence ≡ q) (st : RequiredConsumerLivenessState)
      (watched : m.required_consumer_liveness ≡ some st) where
    seen :
        (evaluate_blocked (look u) u.now q st m.producer.consumer_barrier
          ≡ evaluate_blocked (look_own u base_name k) u.now q st m.producer.consumer_barrier)
        × Returns
            (λ v. Knows base_name v.seen)
            (evaluate_blocked (look u) u.now q st m.producer.consumer_barrier)
    seen =
        evaluate_blocked-Seen (Knows base_name) (look u) (look_own u base_name k)
          (look-Knows u base_name k) (look-eq-look_own u base_name k) u.now q st
          m.producer.consumer_barrier known

    pub check_once :
        IsLate u.now k last at st
        → Ends
            (λ r.
              Watches
                (λ st'. Awaits u.now k last at st' × (st'.config ≡ st.config))
                r.1.required_consumer_liveness
              × Knows base_name r.1.producer.consumer_barrier)
            (check_required_consumer_liveness u m)
    check_once late =
        rw (check_some u m st watched, published)
          (Ends->>= {A = Verdict Barrier} (λ v. First v × Knows base_name v.seen) _ _ _ first_seen
            (λ v h. ((h.0.0, h.0.1), h.1)))
      where
        First : Verdict Barrier → Type 0
        First v =
            Awaits u.now k last at v.state
            × (v.state.config ≡ st.config)
            × (v.failure ≡ v.state.terminal_error)

        first_seen :
            Ends
              (λ v. First v × Knows base_name v.seen)
              (evaluate_blocked (look u) u.now q st m.producer.consumer_barrier)
        first_seen =
            Ends-Returns First (λ v. Knows base_name v.seen)
              (evaluate_blocked (look u) u.now q st m.producer.consumer_barrier)
              (rw seen.0 (
                first_check q k last at u.now (look_own u base_name k)
                  (look_own-Behind u base_name k last q stuck) st m.producer.consumer_barrier late))
              seen.1

    pub check_twice :
        (first : ℕ)
        → Awaits first k last at st
        → first + st.config.progress_check_interval ≤ u.now
        → first + st.config.shutdown_grace_period ≤ u.now
        → Ends
            (λ r. (error : RequiredConsumerError) × (r.0 ≡ err error))
            (check_required_consumer_liveness u m)
    check_twice first awaits interval grace =
        rw (check_some u m st watched, published)
          (Ends->>= {A = Verdict Barrier} Reported _ _ _ second_seen (λ v h. (h.0, rw h.1 refl)))
      where
        second_seen :
            Ends Reported (evaluate_blocked (look u) u.now q st m.producer.consumer_barrier)
        second_seen = rw seen.0 (
            second_check q k last at first (look_own u base_name k)
              (look_own-Behind u base_name k last q stuck) u.now st awaits interval grace
              m.producer.consumer_barrier)
