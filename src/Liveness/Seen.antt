-- ===== src/Liveness/Seen.antt =====
-- What `evaluate_blocked` looks at: a property of it that every look keeps, and two ways to look that agree.
use myelon.Common.{
  ℕ, ◌≡◌, refl, ◌∙◌, ap, Bool-cases, inl, inr, Option, none, some, Option-cases, List, [], ◌∷◌,
  ◌++◌,
}
use myelon.Common.Int.{ℤ}
use myelon.Common.Outcome.{Outcome, done, panic, blocked, ◌>>=◌, Ends}
use myelon.Common.Text.{Text}
use myelon.Liveness.Defs.{
  RequiredConsumerAlert, RequiredConsumerLivenessState, Verdict, judge, progress_of, set_progress,
  evaluate_loop, evaluate_blocked, should_check,
}

-- A call that has a value that meets `P`, where it returns one.
abbrev pub Returns {ℓ} : {A : Type ℓ} → (A → Type 0) → Outcome A → Type 0
Returns P (done a) = P a
Returns P panic = Unit
Returns P blocked = Unit

pub Ends-Returns {ℓ} :
    {A : Type ℓ} (P Q : A → Type 0) (m : Outcome A)
    → Ends P m
    → Returns Q m
    → Ends (λ a. P a × Q a) m
Ends-Returns P Q (done a) p q = (p, q)
Ends-Returns P Q panic p q = elim p [ ]
Ends-Returns P Q blocked p q = elim p [ ]

module _ {S : Type 0} (P : S → Type 0) (observe observe' : Text → S → Option ℤ × S)
    (keeps : (k : Text) (s : S) → P s → P (observe k s).1)
    (agree : (k : Text) (s : S) → P s → observe k s ≡ observe' k s) (now : ℕ) (q : ℤ) where
  abbrev with_more : List RequiredConsumerAlert → Outcome (Verdict S) → Outcome (Verdict S)
  with_more alerts o = o >>= λ v. done (record v { alerts = alerts ++ v.alerts })

  with_alerts :
      (alerts : List RequiredConsumerAlert) (o : Outcome (Verdict S))
      → Returns (λ v. P v.seen) o
      → Returns (λ v. P v.seen) (with_more alerts o)
  with_alerts alerts (done v) h = h
  with_alerts alerts panic h = tt
  with_alerts alerts blocked h = tt

  -- One turn of the loop, from what its look has found.
  abbrev turn :
      Text
      → RequiredConsumerLivenessState
      → Option ℤ × S
      → (RequiredConsumerLivenessState → S → Outcome (Verdict S))
      → Outcome (Verdict S)
  turn k st (observed, s') rest = elim (progress_of k st.consumers) [
    | none ↦ panic
    | some progress ↦
        let (progress', alerts, failure) = judge st.config now q k observed progress in
        let st' : RequiredConsumerLivenessState = record st {
          consumers = set_progress k progress' st.consumers;
        } in
        elim failure [
          | some error ↦ done (record {
            failure = some error;
            alerts = alerts;
            state = record st' { terminal_error = some error };
            seen = s';
          })
          | none ↦ with_more alerts (rest st' s')
        ]
  ]

  turn-Seen :
      (k : Text) (st : RequiredConsumerLivenessState) (observed : Option ℤ) (s' : S)
      (rest rest' : RequiredConsumerLivenessState → S → Outcome (Verdict S))
      → P s'
      → ((st' : RequiredConsumerLivenessState)
          → (rest st' s' ≡ rest' st' s') × Returns (λ v. P v.seen) (rest st' s'))
      → (turn k st (observed, s') rest ≡ turn k st (observed, s') rest')
        × Returns (λ v. P v.seen) (turn k st (observed, s') rest)
  turn-Seen k st observed s' rest rest' h more = elim (Option-cases (progress_of k st.consumers)) [
    | inl missing ↦ rw (turn, missing) (refl, tt)
    | inr (progress, found) ↦
        let judged = judge st.config now q k observed progress in
        let st' : RequiredConsumerLivenessState = record st {
          consumers = set_progress k judged.0 st.consumers;
        } in
        elim (Option-cases judged.2) [
          | inr (error, failed) ↦ rw (turn, found, failed) (refl, h)
          | inl fine ↦
              rw (turn, found, fine)
                (
                  ap (with_more judged.1) (more st').0,
                  with_alerts judged.1 (rest st' s') (more st').1,
                )
        ]
  ]

  evaluate_loop-Seen :
      (ids : List Text) (st : RequiredConsumerLivenessState) (s : S)
      → P s
      → (evaluate_loop observe now q ids st s ≡ evaluate_loop observe' now q ids st s)
        × Returns (λ v. P v.seen) (evaluate_loop observe now q ids st s)
  unfolding evaluate_loop
  evaluate_loop-Seen [] st s h = (refl, h)
  evaluate_loop-Seen (k ∷ ids) st s h =
      let r =
        turn-Seen k st (observe k s).0 (observe k s).1 (evaluate_loop observe now q ids)
          (evaluate_loop observe' now q ids) (keeps k s h)
          (λ st'. evaluate_loop-Seen ids st' (observe k s).1 (keeps k s h)) in
      (r.0 ∙ ap (λ o. turn k st o (evaluate_loop observe' now q ids)) (agree k s h), r.1)

  pub evaluate_blocked-Seen :
      (st : RequiredConsumerLivenessState) (s : S)
      → P s
      → (evaluate_blocked observe now q st s ≡ evaluate_blocked observe' now q st s)
        × Returns (λ v. P v.seen) (evaluate_blocked observe now q st s)
  unfolding evaluate_blocked
  evaluate_blocked-Seen st s h = elim (Option-cases st.terminal_error) [
    | inr (error, ended) ↦ rw ended (refl, h)
    | inl going ↦ elim (Bool-cases (should_check now st)) [
      | inr early ↦ rw (going, early) (refl, h)
      | inl due ↦
          rw (going, due)
            (evaluate_loop-Seen st.config.required_consumer_ids
              (record st { last_check_at = now; terminal_error = none }) s h)
    ]
  ]
