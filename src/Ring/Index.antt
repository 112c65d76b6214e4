-- ===== src/Ring/Index.antt =====
-- `SharedRingBuffer`: the wrap point, free slots and the slot of a sequence.
use myelon.Common.{ℕ, bit_and}
use myelon.Common.Int.{ℤ, pos, negsuc, leb_ℤ}
use myelon.Common.Word.{as_i64, sub_i64}
use myelon.Common.Outcome.{Outcome, done, panic, assert, ◌>>=◌, ◌>>◌}

-- A handle on a ring: the slots themselves are passed separately.
pub record RingBuffer : Type 0 where
  pub index_mask : ℤ
  pub size : ℕ

unfoldable pub wrap_point : RingBuffer → ℤ → ℤ
wrap_point r sequence = sub_i64 sequence (as_i64 r.size)

unfoldable pub free_slots : RingBuffer → ℤ → ℤ → ℤ
unfolding wrap_point
free_slots r producer highest_read_by_consumers =
    let point = wrap_point r producer in sub_i64 highest_read_by_consumers point

-- `usize::try_from(z).expect(…)`.
abbrev pub expect_usize : ℤ → Outcome ℕ
expect_usize (pos n) = done n
expect_usize (negsuc n) = panic

-- The index that `get` adds to the slots' address.
unfoldable pub get : RingBuffer → ℤ → Outcome ℕ
get r sequence = do
  assert (leb_ℤ (pos 0) sequence)
  sequence ← expect_usize sequence
  index_mask ← expect_usize r.index_mask
  done (bit_and sequence index_mask)
