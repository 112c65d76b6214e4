-- ===== src/Liveness/Map.antt =====
-- The map from required consumers to their progress.
use myelon.Common.{◌≡◌, refl, ◌∙◌, arith, false, Bool-cases, inl, inr, some, List, [], ◌∷◌, All}
use myelon.Common.Text.{Text, ◌==ₜ◌, ==ₜ_iff, ==ₜ→eq}
use myelon.Liveness.Defs.{RequiredConsumerProgress, progress_of, set_progress}

abbrev pub Progresses : Type 0
Progresses = List (Text × RequiredConsumerProgress)

abbrev pub Known : Progresses → Text → Type 0
Known m k = (p : RequiredConsumerProgress) × (progress_of k m ≡ some p)

pub progress_of-set_progress_self :
    (k : Text) (p q : RequiredConsumerProgress) (m : Progresses)
    → progress_of k m ≡ some p
    → progress_of k (set_progress k q m) ≡ some q
unfolding progress_of set_progress
progress_of-set_progress_self k p q [] h = cc
progress_of-set_progress_self k p q ((j, r) ∷ m) h =
    ground (arith, progress_of-set_progress_self k p q m)

pub progress_of-set_progress_ne :
    (k j : Text) (q : RequiredConsumerProgress) (m : Progresses)
    → (j ==ₜ k) ≡ false
    → progress_of k (set_progress j q m) ≡ progress_of k m
unfolding progress_of set_progress
progress_of-set_progress_ne k j q [] h = refl
progress_of-set_progress_ne k j q ((i, r) ∷ m) h =
    ground (arith, ==ₜ_iff i j, ==ₜ_iff i k, progress_of-set_progress_ne k j q m)

pub set_progress-Known :
    (k j : Text) (q : RequiredConsumerProgress) (m : Progresses)
    → Known m k
    → Known (set_progress j q m) k
set_progress-Known k j q m (p, e) = elim (Bool-cases (j ==ₜ k)) [
  | inl same ↦
      let eq : j ≡ k = ==ₜ→eq j k same in rw eq (q, progress_of-set_progress_self k p q m e)
  | inr other ↦ (p, progress_of-set_progress_ne k j q m other ∙ e)
]

-- A property of every entry.
pub progress_of-All {κ} :
    (P : RequiredConsumerProgress → Type κ) (k : Text) (p : RequiredConsumerProgress)
    (m : Progresses)
    → All (λ e. P e.1) m
    → progress_of k m ≡ some p
    → P p
unfolding progress_of
progress_of-All P k p [] h e = absurd (cc e)
progress_of-All P k p ((j, r) ∷ m) h e = elim (Bool-cases (j ==ₜ k)) [
  | inl same ↦ let here : r ≡ p = ground arith in rw (← here) h.0
  | inr other ↦ progress_of-All P k p m h.1 (ground arith)
]

pub set_progress-All {κ} :
    (P : RequiredConsumerProgress → Type κ) (k : Text) (q : RequiredConsumerProgress)
    (m : Progresses)
    → P q
    → All (λ e. P e.1) m
    → All (λ e. P e.1) (set_progress k q m)
unfolding set_progress
set_progress-All P k q [] new h = tt
set_progress-All P k q ((j, r) ∷ m) new h = elim (Bool-cases (j ==ₜ k)) [
  | inl same ↦ rw same (new, h.1)
  | inr other ↦ rw other (h.0, set_progress-All P k q m new h.1)
]

pub set_progress-Covers :
    (j : Text) (q : RequiredConsumerProgress) (m : Progresses) (ids : List Text)
    → All (Known m) ids
    → All (Known (set_progress j q m)) ids
set_progress-Covers j q m [] h = tt
set_progress-Covers j q m (k ∷ ids) h =
    (set_progress-Known k j q m h.0, set_progress-Covers j q m ids h.1)
