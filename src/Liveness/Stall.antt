-- ===== src/Liveness/Stall.antt =====
-- A required consumer that is stuck.
use myelon.Common.{
  ℕ, ◌+◌, ◌≤◌, ◌<◌, ◌≡◌, refl, sym, subst, arith, true, inl, inr, Option, none, some, Option-cases,
}
use myelon.Common.Int.{ℤ}
use myelon.Common.Outcome.{Ends, Ends-weaken, Ends-both}
use myelon.Common.Text.{Text}
use myelon.Liveness.Defs.{
  RequiredConsumerError, RequiredConsumerProgress, RequiredConsumerLivenessState, judge,
  judge_stall, should_check, Verdict, evaluate_blocked,
}
use myelon.Liveness.Rule.{Left}
use myelon.Liveness.Judge.{
  Behind, Marked, Unmarked, judge-Behind, judge_stall-Marked, judge_stall-Fails,
}
use myelon.Liveness.Pass.{Listed, Entry, Turn, Passed, pass}
use myelon.Liveness.Watch.{
  IsWatched, Watching, evaluate_blocked-Watching, blocked_due, blocked_failed,
}

should_check_due :
    (now : ℕ) (st : RequiredConsumerLivenessState)
    → st.last_check_at + st.config.progress_check_interval ≤ now
    → should_check now st ≡ true
unfolding should_check
should_check_due now st h = ground arith

abbrev pub Reported {ℓ} : {S : Type ℓ} → Verdict S → Type 0
Reported v = (error : RequiredConsumerError) × (v.failure ≡ some error)

first-Turn :
    (st : RequiredConsumerLivenessState) (now : ℕ) (q : ℤ) (k : Text) (last : ℤ) (at : ℕ)
    (o : Option ℤ) (p : RequiredConsumerProgress)
    → 0 < st.config.progress_timeout
    → at + st.config.progress_timeout ≤ now
    → Behind o last q
    → Unmarked now last at p
    → (let (p', _, failure) = judge st.config now q k o p in
        Turn (Unmarked now last at) (Marked now last at) p' failure)
first-Turn st now q k last at o p positive late behind h =
    let same = judge-Behind st.config now q k o p (subst (λ l. Behind o l q) (sym h.0) behind) in
    rw same (
      settle (judge_stall st.config now k p).0 (judge_stall st.config now k p).2
        (judge_stall-Marked st.config now k last at p positive late h))
  where
    settle :
        (p' : RequiredConsumerProgress) (failure : Option RequiredConsumerError)
        → Marked now last at p'
        → Turn (Unmarked now last at) (Marked now last at) p' failure
    settle p' none marked = (ground arith, marked)
    settle p' (some error) marked = tt

second-Turn :
    (st : RequiredConsumerLivenessState) (first now : ℕ) (q : ℤ) (k : Text) (last : ℤ) (at : ℕ)
    (o : Option ℤ) (p : RequiredConsumerProgress)
    → 0 < st.config.progress_timeout
    → at + st.config.progress_timeout ≤ first
    → first + st.config.shutdown_grace_period ≤ now
    → Behind o last q
    → Marked first last at p
    → (let (p', _, failure) = judge st.config now q k o p in
        Turn (Marked first last at) (λ _. ⊥) p' failure)
second-Turn st first now q k last at o p positive late later behind h =
    let same = judge-Behind st.config now q k o p (subst (λ l. Behind o l q) (sym h.0) behind) in
    let failed = judge_stall-Fails st.config first now k last at p positive late later h in
    rw (same, failed.1) tt

-- After a first check at `first`: the consumer is marked, or there is an error.
abbrev pub Awaits : ℕ → Text → ℤ → ℕ → RequiredConsumerLivenessState → Type 0
Awaits first k last at st =
    IsWatched st
    × Listed k st.config.required_consumer_ids
    × (st.last_check_at ≡ first)
    × (at + st.config.progress_timeout ≤ first)
    × Passed k (Marked first last at) st.terminal_error st.consumers

-- The entry of a stuck consumer before a first check at `first`, which is due.
pub record IsLate (first : ℕ) (k : Text) (last : ℤ) (at : ℕ) (st : RequiredConsumerLivenessState)
    : Type 0 where
  pub watched : IsWatched st
  pub fine : st.terminal_error ≡ none
  pub listed : Listed k st.config.required_consumer_ids
  pub entry : Entry (Unmarked first last at) k st.consumers
  pub due : st.last_check_at + st.config.progress_check_interval ≤ first
  pub late : at + st.config.progress_timeout ≤ first

module _ {ℓ} {S : Type ℓ} (q : ℤ) (k : Text) (last : ℤ) (at first : ℕ) where
  pub second_check :
      (observe_sequence : Text → S → Option ℤ × S)
      → ((s : S) → Behind (observe_sequence k s).0 last q)
      → (second : ℕ) (st : RequiredConsumerLivenessState) → Awaits first k last at st
      → first + st.config.progress_check_interval ≤ second
      → first + st.config.shutdown_grace_period ≤ second
      → (s : S) → Ends Reported (evaluate_blocked observe_sequence second q st s)
  second_check observe_sequence stuck second st (w, listed, checked, late, h) interval grace s =
      elim (Option-cases st.terminal_error) [
        | inr (error, failed) ↦
            rw (blocked_failed observe_sequence second q st s failed) (error, refl)
        | inl fine ↦
            rw
              (blocked_due observe_sequence second q st s fine
                (should_check_due second st (rw checked interval)))
              (let marked : Entry (Marked first last at) k st.consumers =
                  subst (λ e. Passed k (Marked first last at) e st.consumers) fine h in
                Ends-weaken _ _ _ reported (
                  pass observe_sequence second q (record st { last_check_at = second }) k
                    (Marked first last at) (λ _. ⊥)
                    (λ p s.
                      second-Turn st first second q k last at (observe_sequence k s).0 p w.positive
                        late grace (stuck s))
                    s fine w.covered listed marked))
      ]
    where
      reported :
          (v : Verdict S)
          → Left (record st { last_check_at = second }) (Passed k (λ _. ⊥)) v
          → Reported v
      reported v h = elim (Option-cases v.failure) [
        | inr failed ↦ failed
        | inl fine ↦ elim (subst (λ e. Passed k (λ _. ⊥) e v.state.consumers) fine h.0).2 [ ]
      ]

  pub first_check :
      (observe_sequence : Text → S → Option ℤ × S)
      → ((s : S) → Behind (observe_sequence k s).0 last q)
      → (st : RequiredConsumerLivenessState) (s : S) → IsLate first k last at st
      → Ends
          (λ v.
            Awaits first k last at v.state
            × (v.state.config ≡ st.config)
            × (v.failure ≡ v.state.terminal_error))
          (evaluate_blocked observe_sequence first q st s)
  first_check observe_sequence stuck st s h =
      let checked : RequiredConsumerLivenessState = record st { last_check_at = first } in
      let passed =
        pass observe_sequence first q checked k (Unmarked first last at) (Marked first last at)
          (λ p s.
            first-Turn st first q k last at (observe_sequence k s).0 p h.watched.positive h.late
              (stuck s))
          s h.fine h.watched.covered h.listed h.entry in
      Ends-weaken _ _ _ next (
        Ends-both _ _ _
          (rw (blocked_due observe_sequence first q st s h.fine (should_check_due first st h.due))
            passed)
          (evaluate_blocked-Watching observe_sequence first q st s h.watched))
    where
      next :
          (v : Verdict S)
          → Left (record st { last_check_at = first }) (Passed k (Marked first last at)) v
            × Watching observe_sequence first st v
          → Awaits first k last at v.state
            × (v.state.config ≡ st.config)
            × (v.failure ≡ v.state.terminal_error)
      next v (left, seen) =
          let kept : v.state.config ≡ st.config = left.2 in
          (
            (
              seen.0,
              rw kept h.listed,
              left.3,
              rw kept h.late,
              subst (λ e. Passed k (Marked first last at) e v.state.consumers) seen.1 left.0,
            ),
            kept,
            seen.1,
          )

  -- A required consumer with an entry in a watched state without an error is stuck: whenever it is
  -- looked at, in both calls, it has no cursor, or one that is not beyond its entry and is behind the
  -- producer's sequence. Of two calls of `evaluate_blocked` on the state, the first is made when a check
  -- is due, the timeout after the entry's last progress is over, and no stall is noted for later; the
  -- second when the check interval and the grace period after the first are over. Whatever happens to
  -- what is looked at in between, both return, and the second answers with an error.
  pub evaluate_blocked_stuck :
      (observe_sequence observe_later : Text → S → Option ℤ × S) (second : ℕ)
      (st : RequiredConsumerLivenessState) (between : S → S) (s : S)
      → ((s : S) → Behind (observe_sequence k s).0 last q)
      → ((s : S) → Behind (observe_later k s).0 last q)
      → IsLate first k last at st
      → first + st.config.progress_check_interval ≤ second
      → first + st.config.shutdown_grace_period ≤ second
      → Ends
          (λ v. Ends Reported (evaluate_blocked observe_later second q v.state (between v.seen)))
          (evaluate_blocked observe_sequence first q st s)
  evaluate_blocked_stuck observe_sequence observe_later second st between s stuck stuck_later h
        interval grace =
      Ends-weaken _ _ _ next (first_check observe_sequence stuck st s h)
    where
      next :
          (v : Verdict S)
          → Awaits first k last at v.state
            × (v.state.config ≡ st.config)
            × (v.failure ≡ v.state.terminal_error)
          → Ends Reported (evaluate_blocked observe_later second q v.state (between v.seen))
      next v (awaits, kept, _) =
          second_check observe_later stuck_later second v.state awaits (rw kept interval)
            (rw kept grace) (between v.seen)
