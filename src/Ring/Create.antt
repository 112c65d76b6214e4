-- ===== src/Ring/Create.antt =====
-- `SharedRingBuffer::new_auto`: checks, the segment with its header, and the slots behind it.
use myelon.Common.{
  ℕ, zero, suc, ◌+◌, ◌-◌, ◌*◌, ◌^◌, Bool, ◌&&◌, not, Option, none, some, List, [], ◌∷◌, ltb, ◌==◌,
  length, if◌then◌else◌, bit_and,
}
use myelon.Common.Word.{as_i64}
use myelon.Common.Outcome.{Outcome, done, assert, ◌>>◌}
use myelon.Common.Result.{ok, err, ◌>>=◌}
use myelon.Common.Text.{Text}
use myelon.Layout.Defs.{SegmentKind, MultiProcessError, MultiProcessResult}
use myelon.Layout.Validate.{required_layout_size, write_layout_bytes}
use myelon.Ring.Index.{RingBuffer}

unfoldable pub is_pow_of_2 : ℕ → Bool
is_pow_of_2 num = not (num == 0) && bit_and num (num - 1) == 0

-- `checked_mul` on `usize`.
abbrev pub checked_mul : ℕ → ℕ → MultiProcessResult ℕ
checked_mul a b = if ltb (a * b) (2 ^ 64) then ok (a * b) else err MultiProcessError.size_overflow

-- The calls of `event_factory`, in order.
abbrev pub made {ℓ} : {E : Type ℓ} → (ℕ → E) → ℕ → ℕ → List E
made event_factory i zero = []
made event_factory i (suc n) = event_factory i ∷ made event_factory (i + 1) n

-- `ShmemConf::new().size(…).create()`: the bytes of a new segment and the name that the system gave it,
-- or none where it fails. A mapped segment is not at the null pointer.
abbrev pub create_segment : (ℕ → Option (List ℕ × Text)) → ℕ → MultiProcessResult (List ℕ × Text)
create_segment create size = elim (create size) [
  | none ↦ err MultiProcessError.segment_not_created
  | some segment ↦ ok segment
]

-- The ring with its slots, the segment's bytes up to the payload, and the name of the segment.
unfoldable pub new_auto :
    {E : Type 0}
    → (ℕ → Option (List ℕ × Text))
    → (element_size payload_alignment buffer_size : ℕ) → (ℕ → E)
    → Outcome (MultiProcessResult ((RingBuffer × List E) × List ℕ × Text))
unfolding is_pow_of_2 required_layout_size write_layout_bytes
new_auto create element_size payload_alignment buffer_size event_factory = do
  assert (ltb 0 buffer_size)
  done (
      if not (is_pow_of_2 buffer_size)
      then err MultiProcessError.ring_size_not_power_of_two
      else (checked_mul element_size buffer_size >>= λ payload_size.
          required_layout_size payload_size payload_alignment >>= λ required_size.
          create_segment create required_size >>= λ segment.
          write_layout_bytes segment.0 (length segment.0) payload_size element_size buffer_size
            payload_alignment SegmentKind.ring_buffer
          >>= λ laid_out. ok (
            (
              record { index_mask = as_i64 (buffer_size - 1); size = buffer_size },
              made event_factory 0 buffer_size,
            ),
            laid_out.1,
            segment.1,
          )))
