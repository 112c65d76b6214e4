-- ===== src/Liveness/Rule.antt =====
-- The loop of `evaluate_blocked` under an invariant.
use myelon.Common.{ℕ, ◌≡◌, refl, ◌++◌, Option, none, some, List, [], ◌∷◌}
use myelon.Common.Int.{ℤ}
use myelon.Common.Outcome.{done, ◌>>=◌, Ends, Ends->>=}
use myelon.Common.Text.{Text}
use myelon.Liveness.Defs.{
  RequiredConsumerAlert, RequiredConsumerError, RequiredConsumerProgress,
  RequiredConsumerLivenessState, progress_of, set_progress, judge, Verdict, evaluate_loop,
}
use myelon.Liveness.Map.{Progresses}

-- `Inv` holds of the consumers that are still to come and the map, `Post` of the answer and the map
-- when the loop is left.
abbrev pub Landed :
    (List Text → Progresses → Type 0)
    → (Option RequiredConsumerError → Progresses → Type 0)
    → Option RequiredConsumerError
    → List Text
    → Progresses
    → Type 0
Landed Inv Post none ids m = Inv ids m
Landed Inv Post (some error) ids m = Post (some error) m

abbrev pub Left {ℓ} :
    {S : Type ℓ}
    → RequiredConsumerLivenessState
    → (Option RequiredConsumerError → Progresses → Type 0)
    → Verdict S
    → Type 0
Left st Post v =
    Post v.failure v.state.consumers
    × (v.failure ≡ v.state.terminal_error)
    × (v.state.config ≡ st.config)
    × (v.state.last_check_at ≡ st.last_check_at)

module _ {ℓ} {S : Type ℓ} (observe_sequence : Text → S → Option ℤ × S) (now : ℕ)
    (producer_sequence : ℤ) (st : RequiredConsumerLivenessState)
    (Inv : List Text → Progresses → Type 0)
    (Post : Option RequiredConsumerError → Progresses → Type 0) where
  -- What one consumer must keep.
  abbrev Keeps : Type ℓ
  Keeps =
      (k : Text) (ids : List Text) (m : Progresses) (s : S)
      → Inv (k ∷ ids) m
      → (p : RequiredConsumerProgress) × (progress_of k m ≡ some p)
        × (let (p', _, failure) =
              judge st.config now producer_sequence k (observe_sequence k s).0 p in
            Landed Inv Post failure ids (set_progress k p' m))

  pub evaluate_loop-Ends :
      st.terminal_error ≡ none
      → Keeps
      → ((m : Progresses) → Inv [] m → Post none m)
      → (ids : List Text) (m : Progresses) (s : S) → Inv ids m
      → Ends
          (Left st Post)
          (evaluate_loop observe_sequence now producer_sequence ids (record st { consumers = m }) s)
  unfolding evaluate_loop
  evaluate_loop-Ends fine keeps last [] m s h = (last m h, cc, refl, refl)
  evaluate_loop-Ends fine keeps last (k ∷ ids) m s h =
      let kept = keeps k ids m s h in
      let s' = (observe_sequence k s).1 in
      let j = judge st.config now producer_sequence k (observe_sequence k s).0 kept.0 in
      rw (kept.1, Ends, evaluate_loop)
        (settle j.0 j.1 j.2 kept.2
          (evaluate_loop-Ends fine keeps last ids (set_progress k j.0 m) s'))
    where
      settle :
          (p : RequiredConsumerProgress) (alerts : List RequiredConsumerAlert)
          (failure : Option RequiredConsumerError)
          → Landed Inv Post failure ids (set_progress k p m)
          → (Inv ids (set_progress k p m)
              → Ends (Left st Post) (
                  evaluate_loop observe_sequence now producer_sequence ids
                    (record st { consumers = set_progress k p m })
                    (observe_sequence k s).1))
          → Ends (Left st Post) (elim failure [
            | some error ↦ done (record {
              failure = some error;
              alerts = alerts;
              state = record st { consumers = set_progress k p m; terminal_error = some error };
              seen = (observe_sequence k s).1;
            })
            | none ↦
                (evaluate_loop observe_sequence now producer_sequence ids
                    (record st { consumers = set_progress k p m })
                    (observe_sequence k s).1
                  >>= λ v. done (record v { alerts = alerts ++ v.alerts }))
          ])
      settle p alerts none h rest =
          Ends->>= (Left st Post) (Left st Post) _ _ (rest h) (λ v left. left)
      settle p alerts (some error) h rest = (h, refl, refl, refl)
