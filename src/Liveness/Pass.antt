-- ===== src/Liveness/Pass.antt =====
-- One pass of the loop of `evaluate_blocked`, seen from one consumer.
use myelon.Common.{
  ℕ, ◌≡◌, ◌∙◌, true, false, Bool-cases, ◌⊎◌, inl, inr, Option, none, some, List, [], ◌∷◌, All,
}
use myelon.Common.Int.{ℤ}
use myelon.Common.Outcome.{Ends}
use myelon.Common.Text.{Text, ◌==ₜ◌, ==ₜ→eq, ==ₜ_refl}
use myelon.Liveness.Defs.{
  RequiredConsumerError, RequiredConsumerProgress, RequiredConsumerLivenessState, progress_of,
  set_progress, judge, evaluate_loop,
}
use myelon.Liveness.Map.{
  Progresses, Known, progress_of-set_progress_self, progress_of-set_progress_ne,
  set_progress-Covers,
}
use myelon.Liveness.Rule.{Landed, Left, evaluate_loop-Ends}

abbrev pub Listed : Text → List Text → Type 0
Listed k [] = ⊥
Listed k (j ∷ ids) = (j ≡ k) ⊎ Listed k ids

-- The entry of a consumer.
abbrev pub Entry : (RequiredConsumerProgress → Type 0) → Text → Progresses → Type 0
Entry P k m = (p : RequiredConsumerProgress) × (progress_of k m ≡ some p) × P p

set_progress-Entry :
    (P : RequiredConsumerProgress → Type 0) (k j : Text) (q : RequiredConsumerProgress)
    (m : Progresses)
    → (j ==ₜ k) ≡ false
    → Entry P k m
    → Entry P k (set_progress j q m)
set_progress-Entry P k j q m other (p, found, h) =
    (p, progress_of-set_progress_ne k j q m other ∙ found, h)

abbrev pub Turn :
    (RequiredConsumerProgress → Type 0)
    → (RequiredConsumerProgress → Type 0)
    → RequiredConsumerProgress
    → Option RequiredConsumerError
    → Type 0
Turn P Q p none = P p × Q p
Turn P Q p (some error) = Unit

abbrev Passing :
    Text
    → (RequiredConsumerProgress → Type 0)
    → (RequiredConsumerProgress → Type 0)
    → List Text
    → Progresses
    → Type 0
Passing k P Q ids m = All (Known m) ids × Entry P k m × (Listed k ids ⊎ Entry Q k m)

abbrev pub Passed :
    Text → (RequiredConsumerProgress → Type 0) → Option RequiredConsumerError → Progresses → Type 0
Passed k Q none m = Entry Q k m
Passed k Q (some error) m = Unit

-- One pass over the consumers, in which the entry of `k` has `P` before its turn, and `Q` from then on.
module _ {ℓ} {S : Type ℓ} (observe_sequence : Text → S → Option ℤ × S) (now : ℕ) (q : ℤ)
    (st : RequiredConsumerLivenessState) (k : Text) (P Q : RequiredConsumerProgress → Type 0) where
  own-Turn :
      (ids : List Text) (m : Progresses) (p p' : RequiredConsumerProgress)
      (failure : Option RequiredConsumerError)
      → All (Known m) ids
      → progress_of k m ≡ some p
      → Turn P Q p' failure
      → Landed (Passing k P Q) (Passed k Q) failure ids (set_progress k p' m)
  own-Turn ids m p p' none covered found h =
      let here = progress_of-set_progress_self k p p' m found in
      (set_progress-Covers k p' m ids covered, (p', here, h.0), inr (p', here, h.1))
  own-Turn ids m p p' (some error) covered found h = tt

  other_turn :
      (j : Text) (ids : List Text) (m : Progresses) (p' : RequiredConsumerProgress)
      (failure : Option RequiredConsumerError)
      → (j ==ₜ k) ≡ false
      → Passing k P Q (j ∷ ids) m
      → Landed (Passing k P Q) (Passed k Q) failure ids (set_progress j p' m)
  other_turn j ids m p' none other h = (
    set_progress-Covers j p' m ids h.0.1,
    set_progress-Entry P k j p' m other h.1,
    elim h.2 [
      | inl (inl same) ↦ absurd (let e : (j ==ₜ k) ≡ true = rw same (==ₜ_refl k) in cc)
      | inl (inr later) ↦ inl later
      | inr marked ↦ inr (set_progress-Entry Q k j p' m other marked)
    ],
  )
  other_turn j ids m p' (some error) other h = tt

  pub pass :
      ((p : RequiredConsumerProgress) (s : S)
        → P p
        → (let (p', _, failure) = judge st.config now q k (observe_sequence k s).0 p in
            Turn P Q p' failure))
      → (s : S) → st.terminal_error ≡ none
      → All (Known st.consumers) st.config.required_consumer_ids
      → Listed k st.config.required_consumer_ids
      → Entry P k st.consumers
      → Ends
          (Left st (Passed k Q))
          (evaluate_loop observe_sequence now q st.config.required_consumer_ids st s)
  pass turn s fine covered listed entry =
      evaluate_loop-Ends observe_sequence now q st (Passing k P Q) (Passed k Q) fine keeps done_last
        st.config.required_consumer_ids st.consumers s (covered, entry, inl listed)
    where
      done_last : (m : Progresses) → Passing k P Q [] m → Passed k Q none m
      done_last m (_, _, inl h) = elim h [ ]
      done_last m (_, _, inr h) = h

      keeps :
          (j : Text) (ids : List Text) (m : Progresses) (s : S)
          → Passing k P Q (j ∷ ids) m
          → (p : RequiredConsumerProgress) × (progress_of j m ≡ some p)
            × (let (p', _, failure) = judge st.config now q j (observe_sequence j s).0 p in
                Landed (Passing k P Q) (Passed k Q) failure ids (set_progress j p' m))
      keeps j ids m s h = elim (Bool-cases (j ==ₜ k)) [
        | inl same ↦
            let e : j ≡ k = ==ₜ→eq j k same in
            rw e (h.1.0, h.1.1, own-Turn ids m h.1.0 _ _ h.0.1 h.1.1 (turn h.1.0 s h.1.2))
        | inr other ↦ (h.0.0.0, h.0.0.1, other_turn j ids m _ _ other h)
      ]
