-- ===== src/Layout/Tests.antt =====
-- A segment of 90 bytes for a ring of four events of four bytes.
use myelon.Common.{
  ℕ, ◌+◌, ◌%◌, ◌≤◌, ◌<◌, ◌≡◌, refl, arith, true, some, List, ◌⊎◌, length, drop, replicate,
}
use myelon.Common.Result.{ok, err}
use myelon.Layout.Defs.{SegmentKind, MultiProcessError, LayoutContract, is_power_below}
use myelon.Layout.Validate.{payload_align, write_layout_bytes, validate_layout_bytes}
use myelon.Layout.Attach.{validate_layout_bytes-write_layout_bytes, validate_layout_bytes_refuses}

abbrev region : List ℕ
region = replicate 90 7

abbrev layout : LayoutContract
layout = record { payload_offset = 64; total_size = 80 }

power : is_power_below 64 (payload_align 32) ≡ true
unfolding is_power_below
power = refl

validate_layout_bytes-write_layout_bytes_example :
    (segment : List ℕ) × (write_layout_bytes region 90 16 4 4 32 SegmentKind.ring_buffer
      ≡ ok (layout, segment))
    × (length segment ≡ 90)
    × (drop 64 segment ≡ drop 64 region)
    × (validate_layout_bytes (some segment) 90 16 4 4 32 SegmentKind.ring_buffer ≡ ok layout)
    × (layout.payload_offset % 32 ≡ 0)
    × (56 ≤ layout.payload_offset)
    × (layout.payload_offset < 56 + 32)
    × (layout.total_size ≤ 90)
validate_layout_bytes-write_layout_bytes_example =
    validate_layout_bytes-write_layout_bytes 16 4 4 32 SegmentKind.ring_buffer power (omega arith)
      (omega arith) (omega arith) (omega arith) region (omega arith) (omega arith)

abbrev segment : List ℕ
segment = validate_layout_bytes-write_layout_bytes_example.0

validate_layout_bytes_refuses_example :
    ((SegmentKind.cursor ≡ SegmentKind.ring_buffer)
      × (◌≡◌ {A = ℕ} 20 16)
      × (◌≡◌ {A = ℕ} 4 4)
      × (◌≡◌ {A = ℕ} 5 4))
    ⊎ ((error : MultiProcessError) × (validate_layout_bytes
            (some segment)
            90
            20
            4
            5
            8
            SegmentKind.cursor
          ≡ err error))
validate_layout_bytes_refuses_example =
    validate_layout_bytes_refuses 16 4 4 32 SegmentKind.ring_buffer power (omega arith)
      (omega arith) (omega arith) (omega arith) region (omega arith) (omega arith) 20 4 5 8
      SegmentKind.cursor (omega arith) (omega arith) (omega arith) segment layout
      validate_layout_bytes-write_layout_bytes_example.1
