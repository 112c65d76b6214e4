-- ===== src/Protocol/Gating.antt =====
-- The gating sequence of `crates/disruptor-mp/src/lock_free/consumer_barrier.rs` in the protocol, from
-- the cursors that the barrier loads.
use myelon.Common.{ℕ, ◌≡◌, arith, some, List, ◌∷◌, All, get_elem?}
use myelon.Common.Int.{ℤ, pos, negsuc, ◌≤ℤ◌, ◌<ℤ◌}
use myelon.Common.Word.{i64_max}
use myelon.Barrier.{View}
use myelon.Barrier.Min.{refresh, loads, Gates, get_min_consumer_sequence-Gates}
use myelon.Ring.Laws.{IsSeq}
use myelon.Producer.Defs.{Producer}
use myelon.Producer.Reserve.{rear}
use myelon.Protocol.Safety.{All-map, All-get_elem?}

-- One of the loaded cursors is behind the consumer that has read `a` events.
abbrev pub Known : List ℤ → ℕ → Type 0
Known zs a = (i : ℕ) × (y : ℤ) × (get_elem? zs i ≡ some y) × (y <ℤ pos a)

-- When the barrier knows at least one consumer, every cursor it loads lies between -1 and 2 ^ 62, and
-- each consumer has one among them that is not ahead of it, then the gating sequence that the producer
-- reads lies in the same range and is not ahead of any consumer.
pub rear-Known {ℓ} :
    {E : Type ℓ} (v : View) (p : Producer E) (z : ℤ) (zs : List ℤ) (readers : List ℕ)
    → loads v.segments (refresh v p.consumer_barrier).consumer_cursors ≡ z ∷ zs
    → All IsSeq (z ∷ zs)
    → All (Known (z ∷ zs)) readers
    → IsSeq (rear v p) × All (λ a. rear v p <ℤ pos a) readers
rear-Known v p z zs readers e seqs known = (
  All-get_elem? IsSeq (z ∷ zs) gates.attained.0 (rear v p) seqs gates.attained.1,
  All-map (Known (z ∷ zs)) (λ a. rear v p <ℤ pos a) behind readers known,
)
  where
    low : All (λ y. negsuc 0 ≤ℤ y) (z ∷ zs)
    low = All-map IsSeq (λ y. negsuc 0 ≤ℤ y) (λ y h. omega (arith, h.above)) (z ∷ zs) seqs

    high : All (λ y. y <ℤ i64_max) (z ∷ zs)
    high = All-map IsSeq (λ y. y <ℤ i64_max) (λ y h. omega (arith, h.below)) (z ∷ zs) seqs

    gates : Gates (z ∷ zs) (rear v p)
    gates = get_min_consumer_sequence-Gates v p.consumer_barrier z zs e low high

    behind : (a : ℕ) → Known (z ∷ zs) a → rear v p <ℤ pos a
    behind a (i, y, at, less) =
        omega (arith, less, All-get_elem? (λ x. rear v p ≤ℤ x) (z ∷ zs) i y gates.bound at)
