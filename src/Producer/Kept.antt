-- ===== src/Producer/Kept.antt =====
-- What the parts of managed publishing keep of the producer, and of the watch over its consumers.
use myelon.Common.{
  ℕ, ◌<◌, ◌≡◌, refl, sym, ◌∙◌, arith, Bool, true, false, inl, inr, Bool-cases, Option, none, some,
  Option-cases,
}
use myelon.Common.Int.{ℤ, pos, ltb_ℤ, leb_ℤ}
use myelon.Common.Word.{sub_i64, i64_try_from, u64_max}
use myelon.Common.Outcome.{Outcome, done, assert, ◌>>=◌, ◌>>◌, Ends, Ends->>=}
use myelon.Common.Result.{Result, ok, err}
use myelon.Barrier.{Barrier, View}
use myelon.Barrier.Known.{Grows, Grows-refl, refresh-Grows}
use myelon.Barrier.Min.{get_min_consumer_sequence}
use myelon.Ring.{free_slots}
use myelon.Producer.Defs.{
  Producer, next_sequences, last_reserved_sequence, update_min_consumer_clearance_window,
}
use myelon.Producer.Managed.{Managed, look, with_barrier, check_required_consumer_liveness}
use myelon.Liveness.Defs.{
  RequiredConsumerError, RequiredConsumerLivenessState, Verdict, evaluate_blocked,
}
use myelon.Liveness.Watch.{IsWatched, Watching, evaluate_blocked-Watching}

-- The watch is well-formed, where there is one.
abbrev pub Guards : Option RequiredConsumerLivenessState → Type 0
Guards none = Unit
Guards (some st) = IsWatched st

module _ {E : Type 0} where
  -- The same events, published and to come.
  abbrev pub SameEvents : Producer E → Producer E → Type 0
  SameEvents p p' =
      (p'.slots ≡ p.slots)
      × (p'.producer_sequence ≡ p.producer_sequence)
      × (p'.sequence ≡ p.sequence)
      × (p'.ring_buffer ≡ p.ring_buffer)

  window-SameEvents :
      (v : View) (n n_next : ℤ) (p : Producer E)
      → SameEvents p (update_min_consumer_clearance_window v n n_next p).1
  unfolding update_min_consumer_clearance_window
  window-SameEvents v n n_next p = ground arith

  -- What the window update keeps, a reservation keeps.
  next_sequences-Keeps :
      (R : Producer E → Type 0) (v : View) (n : ℕ) (p : Producer E)
      → R p
      → ((z n_next : ℤ) → R (update_min_consumer_clearance_window v z n_next p).1)
      → 0 < n
      → Ends (λ r. R r.1) (next_sequences v n p)
  unfolding next_sequences
  next_sequences-Keeps R v n p base window h = tried (i64_try_from n) (λ z e. ground arith)
    where
      granted : ℤ → Result ℤ ℕ → Result ℤ ℕ × Producer E
      granted z r = elim r [
        | err missing ↦ (err missing, p)
        | ok n_next ↦
            let (cleared, p') = update_min_consumer_clearance_window v z n_next p in
            (elim cleared [ err missing ↦ err missing | ok _ ↦ ok n_next ], p')
      ]

      answered : (z : ℤ) (r : Result ℤ ℕ) → R (granted z r).1
      answered z (err missing) = base
      answered z (ok n_next) = window z n_next

      asserted :
          (c : Bool) (z : ℤ)
          → c ≡ true
          → Ends (λ r. R r.1) (assert c >> done (granted z (last_reserved_sequence p z)))
      asserted true z h = answered z (last_reserved_sequence p z)
      asserted false z h = cc

      tried :
          (o : Option ℤ)
          → ((z : ℤ) → o ≡ some z → ltb_ℤ (pos 0) z ≡ true)
          → Ends
              (λ r. R r.1)
              (elim o as (λ _. Outcome (Result ℤ ℕ × Producer E)) [
                | none ↦ done (err u64_max, p)
                | some z ↦
                    (assert (ltb_ℤ (pos 0) z) >> done (granted z (last_reserved_sequence p z)))
              ])
      tried none positive = base
      tried (some z) positive = asserted (ltb_ℤ (pos 0) z) z (positive z refl)

  pub next_sequences-SameEvents :
      (v : View) (n : ℕ) (p : Producer E)
      → 0 < n
      → Ends (λ r. SameEvents p r.1) (next_sequences v n p)
  next_sequences-SameEvents v n p h =
      next_sequences-Keeps (SameEvents p) v n p (refl, refl, refl, refl)
        (λ z n_next. window-SameEvents v z n_next p) h

  window-Grows :
      (v : View) (n n_next : ℤ) (p : Producer E)
      → Grows p.consumer_barrier
          (update_min_consumer_clearance_window v n n_next p).1.consumer_barrier
  unfolding update_min_consumer_clearance_window get_min_consumer_sequence
  window-Grows v n n_next p =
      let rear = get_min_consumer_sequence v p.consumer_barrier in
      let free = free_slots p.ring_buffer (sub_i64 p.sequence (pos 1)) rear.0 in
      let grown : Grows p.consumer_barrier rear.1 = refresh-Grows v p.consumer_barrier in
      elim (Bool-cases (leb_ℤ n_next p.sequence_clear_of_consumers)) [
        | inl inside ↦ rw inside (Grows-refl p.consumer_barrier)
        | inr outside ↦ elim (Bool-cases (ltb_ℤ free n)) [
          | inl short ↦ rw (outside, short) grown
          | inr enough ↦ rw (outside, enough) grown
        ]
      ]

  -- A reservation only adds to the consumers that the barrier knows.
  pub next_sequences-Grows :
      (v : View) (n : ℕ) (p : Producer E)
      → 0 < n
      → Ends
          (λ r. SameEvents p r.1 × Grows p.consumer_barrier r.1.consumer_barrier)
          (next_sequences v n p)
  next_sequences-Grows v n p h =
      next_sequences-Keeps (λ p'. SameEvents p p' × Grows p.consumer_barrier p'.consumer_barrier) v
        n p ((refl, refl, refl, refl), Grows-refl p.consumer_barrier)
        (λ z n_next. (window-SameEvents v z n_next p, window-Grows v z n_next p)) h

  pub SameEvents-trans :
      (p p' p'' : Producer E) → SameEvents p p' → SameEvents p' p'' → SameEvents p p''
  SameEvents-trans p p' p'' h k = (k.0 ∙ h.0, k.1 ∙ h.1, k.2 ∙ h.2, k.3 ∙ h.3)

  abbrev pub IsGuarded : Managed E → Type 0
  IsGuarded m = Guards m.required_consumer_liveness

  -- The watch has ended with the error.
  abbrev pub Faulty : Managed E → RequiredConsumerError → Type 0
  Faulty m error = elim m.required_consumer_liveness [
    | none ↦ ⊥
    | some st ↦ st.terminal_error ≡ some error
  ]

  abbrev pub Answers : Managed E → Result (Unit {0}) RequiredConsumerError → Type 0
  Answers m (ok _) = Unit
  Answers m (err error) = Faulty m error

  checked_lem :
      (p : Producer E) (verdict : Verdict Barrier)
      → IsWatched verdict.state
      → verdict.failure ≡ verdict.state.terminal_error
      → Answers
          (record {
            producer = with_barrier p verdict.seen;
            required_consumer_liveness = some verdict.state;
          })
          (elim verdict.failure [ none ↦ ok tt | some error ↦ err error ])
  checked_lem p verdict w same = elim (Option-cases verdict.failure) [
    | inl fine ↦ rw fine tt
    | inr (error, failed) ↦ rw failed (sym same ∙ failed)
  ]

  pub check_required_consumer_liveness-Ends :
      (u : View) (m : Managed E)
      → IsGuarded m
      → Ends
          (λ r. SameEvents m.producer r.1.producer × IsGuarded r.1 × Answers r.1 r.0)
          (check_required_consumer_liveness u m)
  unfolding check_required_consumer_liveness
  check_required_consumer_liveness-Ends u m h = checked m.required_consumer_liveness h refl
    where
      Fine : Result (Unit {0}) RequiredConsumerError × Managed E → Type 0
      Fine r = SameEvents m.producer r.1.producer × IsGuarded r.1 × Answers r.1 r.0

      checked :
          (o : Option RequiredConsumerLivenessState)
          → Guards o
          → m.required_consumer_liveness ≡ o
          → Ends Fine
              (elim o as (λ _. Outcome (Result (Unit {0}) RequiredConsumerError × Managed E)) [
                | none ↦ done (ok tt, m)
                | some st ↦
                    (evaluate_blocked
                        (look u)
                        u.now
                        m.producer.producer_sequence
                        st
                        m.producer.consumer_barrier
                      >>= λ verdict. done (
                        elim verdict.failure [ none ↦ ok tt | some error ↦ err error ],
                        record {
                          producer = with_barrier m.producer verdict.seen;
                          required_consumer_liveness = some verdict.state;
                        },
                      ))
              ])
      checked none h e = ((refl, refl, refl, refl), rw e tt, tt)
      checked (some st) h e =
          Ends->>= (Watching (look u) u.now st) Fine _ _
            (evaluate_blocked-Watching (look u) u.now m.producer.producer_sequence st
              m.producer.consumer_barrier h)
            (λ verdict seen.
              ((refl, refl, refl, refl), seen.0, checked_lem m.producer verdict seen.0 seen.1))
