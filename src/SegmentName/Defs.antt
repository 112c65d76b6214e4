-- ===== src/SegmentName/Defs.antt =====
-- `encode_base36` and `portable_shm_segment_name`. The clock, the process id and the counter are
-- arguments; the counter is passed on.
use myelon.Common.{
  ℕ, zero, suc, ◌+◌, ◌-◌, ◌*◌, ◌/◌, ◌%◌, ◌^◌, none, some, [], ◌∷◌, ◌++◌, ◌==◌, length, take,
  get_elem?, if◌then◌else◌, bit_xor,
}
use myelon.Common.Word.{u64}
use myelon.Common.Text.{Text, codes}
use myelon.Naming.Layout.{filtered}

abbrev pub portable_shm_segment_name_max_len : ℕ
portable_shm_segment_name_max_len = 14

abbrev pub portable_shm_segment_suffix_len : ℕ
portable_shm_segment_suffix_len = 8

abbrev pub portable_shm_segment_suffix_modulus : ℕ
portable_shm_segment_suffix_modulus = 2_821_109_907_456

abbrev pub alphabet : Text
alphabet = codes "0123456789abcdefghijklmnopqrstuvwxyz"

-- `ALPHABET[i]`, for `i` below 36.
unfoldable pub digit_at : ℕ → ℕ
digit_at i = elim (get_elem? alphabet i) [ none ↦ 0 | some c ↦ c ]

-- The loop fills the slots from the last one back; `rest` is what it has filled.
unfoldable pub encode_loop : ℕ → ℕ → Text → Text
unfolding digit_at
encode_loop zero value rest = rest
encode_loop (suc width) value rest = encode_loop width (value / 36) (digit_at (value % 36) ∷ rest)

unfoldable pub encode_base36 : ℕ → ℕ → Text
unfolding encode_loop
encode_base36 value width = encode_loop width value []

abbrev pub rotate_left : ℕ → ℕ → ℕ
rotate_left x k = u64 (x * 2 ^ k) + x / 2 ^ (64 - k)

unfoldable pub short_prefix : Text → Text
unfolding filtered
short_prefix prefix =
    let kept =
      take (portable_shm_segment_name_max_len - portable_shm_segment_suffix_len)
        (filtered prefix) in
    if length kept == 0 then codes "d" else kept

unfoldable pub suffix_seed : ℕ → ℕ → ℕ → ℕ
suffix_seed time_seed pid_seed counter_seed =
    bit_xor (bit_xor time_seed (rotate_left pid_seed 13)) (rotate_left counter_seed 27)
    % portable_shm_segment_suffix_modulus

-- The name, and `NEXT_SEGMENT_SUFFIX` afterwards.
unfoldable pub portable_shm_segment_name : ℕ → ℕ → ℕ → Text → Text × ℕ
unfolding short_prefix suffix_seed encode_base36
portable_shm_segment_name time_seed pid_seed next_segment_suffix prefix = (
  short_prefix prefix
      ++ encode_base36 (suffix_seed time_seed pid_seed next_segment_suffix)
          portable_shm_segment_suffix_len,
  u64 (next_segment_suffix + 1),
)
