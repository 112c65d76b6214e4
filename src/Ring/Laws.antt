-- ===== src/Ring/Laws.antt =====
-- Addresses and free slots of a ring whose size is a power of two.
use myelon.Common.{ℕ, ◌+◌, ◌-◌, ◌%◌, ◌^◌, ◌≤◌, ◌<◌, ◌≡◌, ap, arith, bit_and_mask, true, leb}
use native.Mathlib.Nat.{one-le-pow, mod-lt}
use myelon.Common.Int.{ℤ, pos, pos_part, neg_part, ◌-ℤ◌, int_laws}
use myelon.Common.Word.{as_i64, sub_i64, wrap_i64_id}
use myelon.Common.Outcome.{done}
use myelon.Ring.Index.{RingBuffer, wrap_point, free_slots, get}

-- What `new` sets up: a power of two that an `i64` holds, and the mask of its index bits.
pub record IsRing (r : RingBuffer) : Type 0 where
  pub k : ℕ
  pub size_eq : r.size ≡ 2 ^ k
  pub mask_eq : r.index_mask ≡ pos (r.size - 1)
  pub small : r.size ≤ 2 ^ 61

pub size-pos : {r : RingBuffer} → IsRing r → 0 < r.size
size-pos v = omega (arith, v.size_eq, one-le-pow v.k 2)

-- In a ring of a power of two of slots, 2 ^ 61 at most, `get` does not panic for a sequence that
-- is not negative: the slot is the sequence modulo the size, and lies in the ring.
pub get_lem :
    {r : RingBuffer} (s : ℕ)
    → IsRing r
    → (get r (pos s) ≡ done (s % r.size)) × (s % r.size < r.size)
unfolding get
get_lem {r} s v =
    (rw (v.mask_eq, nonneg) (rw v.size_eq (ap done (bit_and_mask v.k s))), mod-lt s (size-pos v))
  where
    nonneg : leb 0 (s + 0) ≡ true
    nonneg = ground arith

-- The values that sequences take before anything could wrap.
pub record IsSeq (z : ℤ) : Type 0 where
  pub above : neg_part z ≤ 1
  pub below : pos_part z < 2 ^ 62

pub sub_bounds :
    (a b : ℤ)
    → (pos_part (a -ℤ b) ≤ pos_part a + neg_part b) × (neg_part (a -ℤ b) ≤ neg_part a + pos_part b)
unfolding ◌-ℤ◌
sub_bounds a b = ground arith

pub sub_i64-eq :
    (a b : ℤ)
    → pos_part a + neg_part b ≤ 2 ^ 63 - 1
    → neg_part a + pos_part b ≤ 2 ^ 63
    → sub_i64 a b ≡ a -ℤ b
sub_i64-eq a b h k =
    wrap_i64_id (a -ℤ b) (omega (arith, sub_bounds a b)) (omega (arith, sub_bounds a b))

-- In a ring of a power of two of slots, 2 ^ 61 at most, and for cursors from -1 to below 2 ^ 62,
-- nothing wraps in `free_slots`: it is the size less what is published and not yet read.
pub free_slots_lem :
    {r : RingBuffer} (p c : ℤ)
    → IsRing r
    → IsSeq p
    → IsSeq c
    → pos_part (free_slots r p c) + pos_part p + neg_part c
      ≡ neg_part (free_slots r p c) + pos_part c + neg_part p + r.size
unfolding free_slots wrap_point
free_slots_lem {r} p c v hp hc =
    let inner : sub_i64 p (pos r.size) ≡ p -ℤ pos r.size =
      sub_i64-eq p (pos r.size) (omega (arith, hp.below)) (omega (arith, v.small, hp.above)) in
    let outer : sub_i64 c (p -ℤ pos r.size) ≡ c -ℤ (p -ℤ pos r.size) =
      sub_i64-eq c (p -ℤ pos r.size)
        (omega (arith, sub_bounds p (pos r.size), hp.above, hp.below, hc.below, v.small))
        (omega (arith, sub_bounds p (pos r.size), hp.below, hc.above)) in
    rw (as_size, inner, outer) (omega int_laws)
  where
    as_size : as_i64 r.size ≡ pos r.size
    as_size = ground (arith, v.small)
