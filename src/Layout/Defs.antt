-- ===== src/Layout/Defs.antt =====
-- `LayoutHeader` as 56 bytes of a little-endian machine without padding, its validation and its contract.
-- A segment is the list of its bytes; `none` is a null pointer. A reason stands for the text of an error.
use myelon.Common.{
  ℕ, zero, suc, ◌+◌, ◌-◌, ◌^◌, Bool, false, not, ◌||◌, List, ◌++◌, ◌==◌, if◌then◌else◌, bit_and,
}
use myelon.Common.Word.{u64}
use myelon.Common.Result.{Result, ok, err}
use myelon.Common.Text.{codes}
use myelon.Layout.Bytes.{to_le_bytes, checksum32}

pub data SegmentKind : Type 0 where
  ring_buffer : SegmentKind
  cursor : SegmentKind

-- `SharedMemoryError` for the sizes of a segment, `IncompatibleLayout` for all else.
pub data MultiProcessError : Type 0 where
  ring_size_not_power_of_two : MultiProcessError
  size_overflow : MultiProcessError
  segment_not_created : MultiProcessError
  segment_too_small : MultiProcessError
  alignment_not_power_of_two : MultiProcessError
  pointer_is_null : MultiProcessError
  too_small_for_header : (got : ℕ) → MultiProcessError
  magic_mismatch : (got : List ℕ) → MultiProcessError
  version_mismatch : (got : ℕ) → MultiProcessError
  checksum_failed : MultiProcessError
  header_size_mismatch : (got : ℕ) → MultiProcessError
  alignment_invalid : MultiProcessError
  kind_unknown : (kind : ℕ) → MultiProcessError
  kind_mismatch : (got expected : SegmentKind) → MultiProcessError
  does_not_fit : MultiProcessError
  payload_size_mismatch : (got expected : ℕ) → MultiProcessError
  element_size_mismatch : (got expected : ℕ) → MultiProcessError
  capacity_mismatch : (got expected : ℕ) → MultiProcessError
  too_small_for_layout : (got expected : ℕ) → MultiProcessError

abbrev pub MultiProcessResult : Type 0 → Type 0
MultiProcessResult A = Result A MultiProcessError

pub record LayoutHeader : Type 0 where
  pub magic : List ℕ
  pub version : ℕ
  pub kind : ℕ
  pub header_size : ℕ
  pub alignment : ℕ
  pub payload_size : ℕ
  pub element_size : ℕ
  pub capacity : ℕ
  pub reserved : ℕ
  pub checksum : ℕ
  pub reserved2 : ℕ

pub record LayoutContract : Type 0 where
  pub payload_offset : ℕ
  pub total_size : ℕ

abbrev pub layout_magic : List ℕ
layout_magic = codes "DSMPTV01"

abbrev pub current_layout_version : ℕ
current_layout_version = 1

abbrev pub header_alignment_min : ℕ
header_alignment_min = 8

-- `mem::size_of` and `mem::align_of` of the header.
abbrev pub header_size : ℕ
header_size = 56

abbrev pub header_align : ℕ
header_align = 8

abbrev pub kind_as_u16 : SegmentKind → ℕ
kind_as_u16 SegmentKind.ring_buffer = 1
kind_as_u16 SegmentKind.cursor = 2

abbrev pub eq_kind : SegmentKind → SegmentKind → Bool
eq_kind a b = kind_as_u16 a == kind_as_u16 b

unfoldable pub segment_kind_from_u16 : ℕ → MultiProcessResult SegmentKind
segment_kind_from_u16 kind =
    if kind == 1
    then ok SegmentKind.ring_buffer
    else if kind == 2
    then ok SegmentKind.cursor
    else err (MultiProcessError.kind_unknown kind)

-- `usize::is_power_of_two`: among the powers below the `k`-th.
unfoldable pub is_power_below : ℕ → ℕ → Bool
is_power_below zero n = false
is_power_below (suc k) n = n == 2 ^ k || is_power_below k n

abbrev pub is_power_of_two : ℕ → Bool
is_power_of_two n = is_power_below 64 n

-- `!x`, of a `usize`.
abbrev pub complement : ℕ → ℕ
complement x = 2 ^ 64 - 1 - x

unfoldable pub align_up : ℕ → ℕ → MultiProcessResult ℕ
align_up value align =
    if align == 0 || not (is_power_of_two align)
    then err MultiProcessError.alignment_not_power_of_two
    else ok (bit_and (u64 (value + align - 1)) (complement (align - 1)))

unfoldable pub bytes_of_header : LayoutHeader → List ℕ
bytes_of_header h =
    h.magic
    ++ (to_le_bytes 2 h.version
        ++ (to_le_bytes 2 h.kind
            ++ (to_le_bytes 2 h.header_size
                ++ (to_le_bytes 2 h.alignment
                    ++ (to_le_bytes 8 h.payload_size
                        ++ (to_le_bytes 8 h.element_size
                            ++ (to_le_bytes 8 h.capacity
                                ++ (to_le_bytes 8 h.reserved
                                    ++ (to_le_bytes 4 h.checksum
                                        ++ to_le_bytes 4 h.reserved2)))))))))

unfoldable pub is_valid_checksum : LayoutHeader → Bool
is_valid_checksum h = checksum32 (bytes_of_header (record h { checksum = 0 })) == h.checksum
