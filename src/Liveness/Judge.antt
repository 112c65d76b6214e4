-- ===== src/Liveness/Judge.antt =====
-- The verdict on one consumer.
use myelon.Common.{
  ℕ, ◌+◌, ◌-◌, ◌≤◌, ◌<◌, ◌≡◌, refl, arith, Bool-cases, inl, inr, Option, none, some,
}
use myelon.Common.Int.{ℤ, ◌≤ℤ◌, ◌<ℤ◌, ltb_ℤ, leb_ℤ}
use myelon.Common.Text.{Text}
use myelon.Liveness.Defs.{
  RequiredConsumerLivenessConfig, RequiredConsumerError, RequiredConsumerProgress, judge,
  judge_stall,
}

-- A stall starts no earlier than the timeout after the last progress.
abbrev pub Timed : ℕ → RequiredConsumerProgress → Type 0
Timed timeout p = elim p.stall_started_at [
  | none ↦ Unit
  | some since ↦ p.last_progress_at + timeout ≤ since
]

-- The error that ends the watch: which consumer, where it stands, and for how long it has.
abbrev pub Patient :
    RequiredConsumerLivenessConfig
    → ℕ
    → Text
    → RequiredConsumerProgress
    → RequiredConsumerError
    → Type 0
Patient c now k p (RequiredConsumerError.startup_timeout missing) = ⊥
Patient c now k p (RequiredConsumerError.graceful_shutdown_triggered j sequence stalled_for) =
    (j ≡ k)
    × (sequence ≡ p.last_observed_sequence)
    × (p.last_progress_at + stalled_for ≡ now)
    × (c.progress_timeout + c.shutdown_grace_period ≤ stalled_for)

abbrev pub Unless :
    RequiredConsumerLivenessConfig
    → ℕ
    → Text
    → RequiredConsumerProgress
    → Option RequiredConsumerError
    → Type 0
Unless c now k p none = Unit
Unless c now k p (some error) = Patient c now k p error

judge_stall-Timed :
    (c : RequiredConsumerLivenessConfig) (now : ℕ) (k : Text) (p : RequiredConsumerProgress)
    → 0 < c.progress_timeout
    → Timed c.progress_timeout p
    → Timed c.progress_timeout (judge_stall c now k p).0
      × Unless c now k (judge_stall c now k p).0 (judge_stall c now k p).2
unfolding judge_stall
judge_stall-Timed c now k p positive h = ground arith

pub judge-Timed :
    (c : RequiredConsumerLivenessConfig) (now : ℕ) (q : ℤ) (k : Text) (s : Option ℤ)
    (p : RequiredConsumerProgress)
    → 0 < c.progress_timeout
    → Timed c.progress_timeout p
    → Timed c.progress_timeout (judge c now q k s p).0
      × Unless c now k (judge c now q k s p).0 (judge c now q k s p).2
judge-Timed c now q k none p positive h = unfold judge in judge_stall-Timed c now k p positive h
judge-Timed c now q k (some s) p positive h = elim (Bool-cases (ltb_ℤ p.last_observed_sequence s)) [
  | inl ahead ↦ unfold judge in rw ahead (tt, tt)
  | inr same ↦ elim (Bool-cases (leb_ℤ q s)) [
    | inl caught_up ↦ unfold judge in rw (same, caught_up) (tt, tt)
    | inr behind ↦ unfold judge in rw (same, behind) (judge_stall-Timed c now k p positive h)
  ]
]

-- What a stuck consumer shows: no cursor, or one that has not moved and is behind the producer.
abbrev pub Behind : Option ℤ → ℤ → ℤ → Type 0
Behind none last q = Unit
Behind (some s) last q = (s ≤ℤ last) × (s <ℤ q)

pub judge-Behind :
    (c : RequiredConsumerLivenessConfig) (now : ℕ) (q : ℤ) (k : Text) (s : Option ℤ)
    (p : RequiredConsumerProgress)
    → Behind s p.last_observed_sequence q
    → judge c now q k s p ≡ judge_stall c now k p
unfolding judge
judge-Behind c now q k none p h = refl
judge-Behind c now q k (some s) p h = ground arith

-- A stuck consumer after a check at `now`: marked since some time up to then, unless it is reported.
abbrev pub Marked : ℕ → ℤ → ℕ → RequiredConsumerProgress → Type 0
Marked now last at p =
    (p.last_observed_sequence ≡ last)
    × (p.last_progress_at ≡ at)
    × elim p.stall_started_at [ none ↦ ⊥ | some since ↦ since ≤ now ]

abbrev pub Unmarked : ℕ → ℤ → ℕ → RequiredConsumerProgress → Type 0
Unmarked now last at p =
    (p.last_observed_sequence ≡ last)
    × (p.last_progress_at ≡ at)
    × elim p.stall_started_at [ none ↦ Unit | some since ↦ since ≤ now ]

pub judge_stall-Marked :
    (c : RequiredConsumerLivenessConfig) (now : ℕ) (k : Text) (last : ℤ) (at : ℕ)
    (p : RequiredConsumerProgress)
    → 0 < c.progress_timeout
    → at + c.progress_timeout ≤ now
    → Unmarked now last at p
    → Marked now last at (judge_stall c now k p).0
unfolding judge_stall
judge_stall-Marked c now k last at p positive late h = ground arith

pub judge_stall-Fails :
    (c : RequiredConsumerLivenessConfig) (first now : ℕ) (k : Text) (last : ℤ) (at : ℕ)
    (p : RequiredConsumerProgress)
    → 0 < c.progress_timeout
    → at + c.progress_timeout ≤ first
    → first + c.shutdown_grace_period ≤ now
    → Marked first last at p
    → (error : RequiredConsumerError) × ((judge_stall c now k p).2 ≡ some error)
unfolding judge_stall
judge_stall-Fails c first now k last at p positive late later h = (
  RequiredConsumerError.graceful_shutdown_triggered k p.last_observed_sequence
      (now - p.last_progress_at),
  ground arith,
)
