-- ===== src/Framing/Flags.antt =====
-- The flag byte of a frame (`frame_flags`, `is_single_frame`, `is_last_frame`).
use Prim.Native.Nat.{bit_or}
use myelon.Common.{ℕ, ◌≡◌, refl, Bool, true, false, not, ◌&&◌, bit_and, ◌==◌, if◌then◌else◌}

unfoldable pub frame_flags : Bool → Bool → ℕ
frame_flags is_first is_last =
    let flags : ℕ = 0 in
    let flags : ℕ = if is_first then bit_or flags 0b01 else flags in
    if is_last then bit_or flags 0b10 else flags

unfoldable pub is_single_frame : ℕ → Bool
is_single_frame flags = bit_and flags 0b11 == 0b11

unfoldable pub is_last_frame : ℕ → Bool
is_last_frame flags = not (bit_and flags 0b10 == 0)

-- The test `flags & 0x01 != 0` of the batch receivers.
unfoldable pub is_first_frame : ℕ → Bool
is_first_frame flags = not (bit_and flags 0x01 == 0)

-- Reading the byte gives back what it was built from.
pub is_last_frame-frame_flags : (f l : Bool) → is_last_frame (frame_flags f l) ≡ l
unfolding is_last_frame frame_flags
is_last_frame-frame_flags true true = refl
is_last_frame-frame_flags true false = refl
is_last_frame-frame_flags false true = refl
is_last_frame-frame_flags false false = refl

pub is_first_frame-frame_flags : (f l : Bool) → is_first_frame (frame_flags f l) ≡ f
unfolding is_first_frame frame_flags
is_first_frame-frame_flags true true = refl
is_first_frame-frame_flags true false = refl
is_first_frame-frame_flags false true = refl
is_first_frame-frame_flags false false = refl

pub is_single_frame-frame_flags : (f l : Bool) → is_single_frame (frame_flags f l) ≡ (f && l)
unfolding is_single_frame frame_flags
is_single_frame-frame_flags true true = refl
is_single_frame-frame_flags true false = refl
is_single_frame-frame_flags false true = refl
is_single_frame-frame_flags false false = refl
