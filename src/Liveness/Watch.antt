-- ===== src/Liveness/Watch.antt =====
-- `evaluate_blocked` as its caller sees it.
use myelon.Common.{
  ℕ, ◌<◌, ◌≡◌, refl, sym, ◌∙◌, subst, arith, true, false, Bool-cases, inl, inr, Option, none, some,
  Option-cases, List, [], ◌∷◌, All,
}
use myelon.Common.Int.{ℤ}
use myelon.Common.Outcome.{done, Ends, Ends-weaken}
use myelon.Common.Text.{Text}
use myelon.Liveness.Defs.{
  RequiredConsumerError, RequiredConsumerProgress, RequiredConsumerLivenessState, progress_of,
  set_progress, judge, should_check, Verdict, evaluate_loop, evaluate_blocked,
}
use myelon.Liveness.Map.{
  Progresses, Known, progress_of-set_progress_self, progress_of-All, set_progress-All,
  set_progress-Covers,
}
use myelon.Liveness.Rule.{Landed, Left, evaluate_loop-Ends}
use myelon.Liveness.Judge.{Timed, Patient, Unless, judge-Timed}

-- Every required consumer has an entry, and every stall that an entry notes came after the timeout.
pub record IsWatched (st : RequiredConsumerLivenessState) : Type 0 where
  pub positive : 0 < st.config.progress_timeout
  pub covered : All (Known st.consumers) st.config.required_consumer_ids
  pub timed : All (λ e. Timed st.config.progress_timeout e.1) st.consumers

-- The error is about a consumer that has an entry.
abbrev pub Justified :
    RequiredConsumerLivenessState → ℕ → RequiredConsumerError → Progresses → Type 0
Justified st now error m =
    (k : Text) × (p : RequiredConsumerProgress) × (progress_of k m ≡ some p)
    × Patient st.config now k p error

abbrev Running : RequiredConsumerLivenessState → List Text → Progresses → Type 0
Running st ids m =
    All (Known m) ids
    × All (Known m) st.config.required_consumer_ids
    × All (λ e. Timed st.config.progress_timeout e.1) m

abbrev Answered :
    RequiredConsumerLivenessState → ℕ → Option RequiredConsumerError → Progresses → Type 0
Answered st now failure m =
    Running st [] m × elim failure [ none ↦ Unit | some error ↦ Justified st now error m ]

Running-kept :
    (now : ℕ) (q : ℤ) (st : RequiredConsumerLivenessState)
    → 0 < st.config.progress_timeout
    → (k : Text) (ids : List Text) (m : Progresses) (s : Option ℤ) → Running st (k ∷ ids) m
    → (p : RequiredConsumerProgress) × (progress_of k m ≡ some p)
      × Landed
          (Running st)
          (Answered st now)
          (judge st.config now q k s p).2
          ids
          (set_progress k (judge st.config now q k s p).0 m)
Running-kept now q st positive k ids m s h =
    let (p, found) = h.0.0 in
    let kept =
      judge-Timed st.config now q k s p positive
        (progress_of-All (Timed st.config.progress_timeout) k p m h.2 found) in
    (
      p,
      found,
      landed p found (judge st.config now q k s p).0 (judge st.config now q k s p).2 kept.0 kept.1,
    )
  where
    answer :
        (p' : RequiredConsumerProgress) (failure : Option RequiredConsumerError)
        → Running st ids (set_progress k p' m)
        → progress_of k (set_progress k p' m) ≡ some p'
        → Unless st.config now k p' failure
        → Landed (Running st) (Answered st now) failure ids (set_progress k p' m)
    answer p' none ran found unless = ran
    answer p' (some error) ran found unless = ((tt, ran.1, ran.2), (k, p', found, unless))

    landed :
        (p : RequiredConsumerProgress)
        → progress_of k m ≡ some p
        → (p' : RequiredConsumerProgress) (failure : Option RequiredConsumerError)
        → Timed st.config.progress_timeout p'
        → Unless st.config now k p' failure
        → Landed (Running st) (Answered st now) failure ids (set_progress k p' m)
    landed p found p' failure timed unless =
        let ran : Running st ids (set_progress k p' m) = (
          set_progress-Covers k p' m ids h.0.1,
          set_progress-Covers k p' m st.config.required_consumer_ids h.1,
          set_progress-All (Timed st.config.progress_timeout) k p' m timed h.2,
        ) in
        answer p' failure ran (progress_of-set_progress_self k p p' m found) unless

module _ {ℓ} {S : Type ℓ} (observe_sequence : Text → S → Option ℤ × S) where
  loop-Answered :
      (now : ℕ) (q : ℤ) (st : RequiredConsumerLivenessState) (s : S)
      → st.terminal_error ≡ none
      → IsWatched st
      → Ends
          (Left st (Answered st now))
          (evaluate_loop observe_sequence now q st.config.required_consumer_ids st s)
  loop-Answered now q st s fine w =
      evaluate_loop-Ends observe_sequence now q st (Running st) (Answered st now) fine
        (λ k ids m s h. Running-kept now q st w.positive k ids m (observe_sequence k s).0 h)
        (λ m h. (h, tt)) st.config.required_consumer_ids st.consumers s
        (w.covered, w.covered, w.timed)

  abbrev answer : Option RequiredConsumerError → RequiredConsumerLivenessState → S → Verdict S
  answer failure st s = record { failure = failure; alerts = []; state = st; seen = s }

  -- A check that starts with an error ends with it.
  abbrev pub Fresh :
      ℕ → RequiredConsumerLivenessState → Option RequiredConsumerError → Verdict S → Type 0
  Fresh now st (some error) v = v.failure ≡ some error
  Fresh now st none v = elim v.failure [
    | none ↦ Unit
    | some error ↦ Justified st now error v.state.consumers
  ]

  abbrev pub Watching : ℕ → RequiredConsumerLivenessState → Verdict S → Type 0
  Watching now st v =
      IsWatched v.state
      × (v.failure ≡ v.state.terminal_error)
      × (v.state.config ≡ st.config)
      × Fresh now st st.terminal_error v

  watching :
      (now : ℕ) (st : RequiredConsumerLivenessState) (v : Verdict S)
      → st.terminal_error ≡ none
      → 0 < st.config.progress_timeout
      → Left st (Answered st now) v
      → Watching now st v
  watching now st v fine positive h =
      let kept : v.state.config ≡ st.config = h.2 in
      (
        record { positive = rw kept positive; covered = rw kept h.0.0.1; timed = rw kept h.0.0.2 },
        h.1,
        h.2,
        subst (λ e. Fresh now st e v) (sym fine) h.0.1,
      )

  module _ (now : ℕ) (q : ℤ) (st : RequiredConsumerLivenessState) (s : S) where
    -- What each of the three branches calls.
    pub blocked_failed :
        {error : RequiredConsumerError}
        → st.terminal_error ≡ some error
        → evaluate_blocked observe_sequence now q st s ≡ done (answer (some error) st s)
    unfolding evaluate_blocked
    blocked_failed e = ground arith

    pub blocked_early :
        st.terminal_error ≡ none
        → should_check now st ≡ false
        → evaluate_blocked observe_sequence now q st s ≡ done (answer none st s)
    unfolding evaluate_blocked
    blocked_early e early = ground arith

    pub blocked_due :
        st.terminal_error ≡ none
        → should_check now st ≡ true
        → evaluate_blocked observe_sequence now q st s
          ≡ evaluate_loop observe_sequence now q st.config.required_consumer_ids
              (record st { last_check_at = now })
              s
    unfolding evaluate_blocked
    blocked_due e due = ground arith

  -- A call of `evaluate_blocked` on a watched state returns: it never hits the `expect`. The state that it
  -- leaves is watched, with the same configuration, and the answer is its terminal error. A call that
  -- starts with a terminal error answers that; an error that a call finds names a consumer with an
  -- entry, the sequence of that entry, and the time since its last progress, which is at least the
  -- timeout and the grace period together.
  pub evaluate_blocked-Watching :
      (now : ℕ) (q : ℤ) (st : RequiredConsumerLivenessState) (s : S)
      → IsWatched st
      → Ends (Watching now st) (evaluate_blocked observe_sequence now q st s)
  evaluate_blocked-Watching now q st s w = elim (Option-cases st.terminal_error) [
    | inr (error, failed) ↦ rw (blocked_failed now q st s failed) (
      w,
      sym failed,
      refl,
      subst (λ e. Fresh now st e (answer (some error) st s)) (sym failed) refl,
    )
    | inl fine ↦ elim (Bool-cases (should_check now st)) [
      | inl due ↦
          let checked : RequiredConsumerLivenessState = record st { last_check_at = now } in
          rw (blocked_due now q st s fine due) (
            Ends-weaken _ _ _ (λ v. watching now checked v fine w.positive)
              (loop-Answered now q checked s fine
                (record { positive = w.positive; covered = w.covered; timed = w.timed })))
      | inr early ↦
          rw (blocked_early now q st s fine early)
            (w, sym fine, refl, subst (λ e. Fresh now st e (answer none st s)) (sym fine) tt)
    ]
  ]

  -- Once a call of `evaluate_blocked` on a watched state has answered with an error, every later call
  -- answers with the same error, whatever the time, the producer's sequence and the cursors; it looks
  -- at no cursor, prints no alert and changes nothing.
  pub evaluate_blocked_again :
      (now : ℕ) (q : ℤ) (st : RequiredConsumerLivenessState) (s : S) (v : Verdict S)
      (error : RequiredConsumerError) (later : ℕ) (q' : ℤ) (s' : S)
      → IsWatched st
      → evaluate_blocked observe_sequence now q st s ≡ done v
      → v.failure ≡ some error
      → evaluate_blocked observe_sequence later q' v.state s'
        ≡ done (record { failure = some error; alerts = []; state = v.state; seen = s' })
  evaluate_blocked_again now q st s v error later q' s' w ran failed =
      let seen : Watching now st v =
        subst (Ends (Watching now st)) ran (evaluate_blocked-Watching now q st s w) in
      blocked_failed later q' v.state s' (sym seen.1 ∙ failed)
