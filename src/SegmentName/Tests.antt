-- ===== src/SegmentName/Tests.antt =====
-- Names for benchmarks.
use myelon.Common.{◌%◌, ◌^◌, ◌≤◌, ◌≡◌, ◌≢◌, refl, arith, All, length}
use myelon.Common.Text.{codes}
use myelon.SegmentName.Defs.{encode_base36, suffix_seed, portable_shm_segment_name}
use myelon.SegmentName.Names.{
  Portable, decode, encode_base36_lem, portable_shm_segment_name_lem, portable_shm_segment_name-ne,
}

encode_base36_ends : encode_base36 1_295 4 ≡ codes "00zz"
unfolding encode_base36
encode_base36_ends = refl

encode_base36_lem_example :
    (length (encode_base36 123_456 8) ≡ 8)
    × All Portable (encode_base36 123_456 8)
    × (decode 0 (encode_base36 123_456 8) ≡ 123_456 % 36 ^ 8)
encode_base36_lem_example = encode_base36_lem 123_456 8

portable_shm_segment_name_lem_example :
    (9 ≤ length (portable_shm_segment_name 1_000_000 77 0 (codes "Bench-1")).0)
    × (length (portable_shm_segment_name 1_000_000 77 0 (codes "Bench-1")).0 ≤ 14)
    × All Portable (portable_shm_segment_name 1_000_000 77 0 (codes "Bench-1")).0
portable_shm_segment_name_lem_example =
    portable_shm_segment_name_lem 1_000_000 77 0 (codes "Bench-1")

seeds-ne : suffix_seed 1_000_000 77 0 ≢ suffix_seed 1_000_000 77 1
unfolding suffix_seed
seeds-ne e = omega arith

portable_shm_segment_name-ne_example :
    (portable_shm_segment_name 1_000_000 77 0 (codes "Bench-1")).0
    ≢ (portable_shm_segment_name 1_000_000 77 1 (codes "Bench-1")).0
portable_shm_segment_name-ne_example =
    portable_shm_segment_name-ne 1_000_000 77 0 1_000_000 77 1 (codes "Bench-1") seeds-ne
