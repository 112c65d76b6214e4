-- ===== src/Liveness/Start.antt =====
-- The state at first, and once the consumers are there.
use myelon.Common.{ℕ, ◌<◌, refl, Bool-cases, inl, inr, Option, none, some, List, [], ◌∷◌, map, All}
use myelon.Common.Int.{ℤ, negsuc}
use myelon.Common.Outcome.{Ends}
use myelon.Common.Text.{Text, ◌==ₜ◌, ==ₜ_refl}
use myelon.Liveness.Defs.{
  RequiredConsumerLivenessConfig, RequiredConsumerLivenessState, RequiredConsumerProgress,
  fresh_progress, moving, new_state, progress_of, set_progress, seed_loop, seed_progress,
}
use myelon.Liveness.Map.{Progresses, Known, set_progress-Covers, set_progress-All}
use myelon.Liveness.Judge.{Timed}
use myelon.Liveness.Watch.{IsWatched}

Known-cons :
    (k j : Text) (p : RequiredConsumerProgress) (m : Progresses) → Known m k → Known ((j, p) ∷ m) k
unfolding progress_of
Known-cons k j p m (q, found) = elim (Bool-cases (j ==ₜ k)) [
  | inl same ↦ (p, rw same refl)
  | inr other ↦ (q, rw other found)
]

All-Known-cons :
    (j : Text) (p : RequiredConsumerProgress) (m : Progresses) (ids : List Text)
    → All (Known m) ids
    → All (Known ((j, p) ∷ m)) ids
All-Known-cons j p m [] h = tt
All-Known-cons j p m (k ∷ ids) h = (Known-cons k j p m h.0, All-Known-cons j p m ids h.1)

fresh-Covers : (now : ℕ) (ids : List Text) → All (Known (map (fresh_progress now) ids)) ids
unfolding progress_of
fresh-Covers now [] = tt
fresh-Covers now (k ∷ ids) = (
  ((fresh_progress now k).1, rw (==ₜ_refl k) refl),
  All-Known-cons k (fresh_progress now k).1 (map (fresh_progress now) ids) ids
      (fresh-Covers now ids),
)

fresh-Timed :
    (timeout now : ℕ) (ids : List Text)
    → All (λ e. Timed timeout e.1) (map (fresh_progress now) ids)
fresh-Timed timeout now [] = tt
fresh-Timed timeout now (k ∷ ids) = (tt, fresh-Timed timeout now ids)

pub new_state-IsWatched :
    (now : ℕ) (config : RequiredConsumerLivenessConfig)
    → 0 < config.progress_timeout
    → IsWatched (new_state now config)
unfolding new_state
new_state-IsWatched now config h = record {
  positive = h;
  covered = fresh-Covers now config.required_consumer_ids;
  timed = fresh-Timed config.progress_timeout now config.required_consumer_ids;
}

module _ {ℓ} {S : Type ℓ} (observe_sequence : Text → S → Option ℤ × S) where
  seed_loop-Ends :
      (now : ℕ) (ids : List Text) (st : RequiredConsumerLivenessState) (s : S)
      → All (Known st.consumers) ids
      → IsWatched st
      → Ends (λ r. IsWatched r.0) (seed_loop observe_sequence now ids st s)
  unfolding seed_loop
  seed_loop-Ends now [] st s h w = w
  seed_loop-Ends now (k ∷ ids) st s h w =
      let sequence : ℤ = elim (observe_sequence k s).0 [ none ↦ negsuc 0 | some z ↦ z ] in
      let m' = set_progress k (moving now sequence) st.consumers in
      rw (h.0.1, Ends, seed_loop)
        (seed_loop-Ends now ids (record st { consumers = m' }) (observe_sequence k s).1
          (set_progress-Covers k (moving now sequence) st.consumers ids h.1)
          (record {
            positive = w.positive;
            covered =
                set_progress-Covers k (moving now sequence) st.consumers
                  st.config.required_consumer_ids w.covered;
            timed =
                set_progress-All (Timed st.config.progress_timeout) k (moving now sequence)
                  st.consumers tt w.timed;
          }))

  pub seed_progress-Ends :
      (now : ℕ) (st : RequiredConsumerLivenessState) (s : S)
      → IsWatched st
      → Ends (λ r. IsWatched r.0) (seed_progress observe_sequence now st s)
  unfolding seed_progress
  seed_progress-Ends now st s w =
      seed_loop-Ends now st.config.required_consumer_ids st s w.covered w
