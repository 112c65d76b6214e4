-- ===== src/Common/Word.antt =====
-- Rust's machine integers: `i64` with wrap-around and checked operations, casts, `u8` to `u64`.
use Prim.Native.Nat.{ℕ, ◌-◌, ◌%◌, ◌^◌, ◌≤◌, ◌<◌}
use mathlib.Core.Path.{◌≡◌}
use mathlib.Core.Bool.{Bool}
use mathlib.Core.Option.{Option, none, some}
use native.Mathlib.Omega.{arith}
use myelon.Common.Tests.{ltb, if◌then◌else◌}
use myelon.Common.Int.{ℤ, pos, negsuc, pos_part, neg_part, ◌+ℤ◌, ◌-ℤ◌}

abbrev pub u8 : ℕ → ℕ
u8 n = n % 2 ^ 8

abbrev pub u32 : ℕ → ℕ
u32 n = n % 2 ^ 32

abbrev pub u64 : ℕ → ℕ
u64 n = n % 2 ^ 64

abbrev pub u64_max : ℕ
u64_max = 2 ^ 64 - 1

-- The 64-bit pattern `m` read as an `i64`.
abbrev pub as_i64 : ℕ → ℤ
as_i64 n = let m = n % 2 ^ 64 in if ltb m (2 ^ 63) then pos m else negsuc (2 ^ 64 - 1 - m)

-- The value of an `i64` that an exact result wraps to.
unfoldable pub wrap_i64 : ℤ → ℤ
wrap_i64 (pos n) = as_i64 n
wrap_i64 (negsuc n) =
    let m = n % 2 ^ 64 in if ltb m (2 ^ 63) then negsuc m else pos (2 ^ 64 - 1 - m)

-- `as u64` of an `i64`.
abbrev pub i64_as_u64 : ℤ → ℕ
i64_as_u64 (pos n) = n % 2 ^ 64
i64_as_u64 (negsuc n) = 2 ^ 64 - 1 - n % 2 ^ 64

-- The range of `i64`.
abbrev pub InI64 : ℤ → Type 0
InI64 z = (pos_part z < 2 ^ 63) × (neg_part z ≤ 2 ^ 63)

abbrev pub in_i64 : ℤ → Bool
in_i64 (pos n) = ltb n (2 ^ 63)
in_i64 (negsuc n) = ltb n (2 ^ 63)

abbrev pub i64_max : ℤ
i64_max = pos (2 ^ 63 - 1)

abbrev pub add_i64 : ℤ → ℤ → ℤ
add_i64 a b = wrap_i64 (a +ℤ b)

abbrev pub sub_i64 : ℤ → ℤ → ℤ
sub_i64 a b = wrap_i64 (a -ℤ b)

abbrev pub checked_i64 : ℤ → Option ℤ
checked_i64 z = if in_i64 z then some z else none

abbrev pub checked_add_i64 : ℤ → ℤ → Option ℤ
checked_add_i64 a b = checked_i64 (a +ℤ b)

abbrev pub checked_sub_i64 : ℤ → ℤ → Option ℤ
checked_sub_i64 a b = checked_i64 (a -ℤ b)

-- `i64::try_from` of an unsigned number.
abbrev pub i64_try_from : ℕ → Option ℤ
i64_try_from n = if ltb n (2 ^ 63) then some (pos n) else none

-- In the range nothing wraps.
pub wrap_i64_id : (z : ℤ) → pos_part z < 2 ^ 63 → neg_part z ≤ 2 ^ 63 → wrap_i64 z ≡ z
unfolding wrap_i64
wrap_i64_id (pos n) h k = ground arith
wrap_i64_id (negsuc n) h k = ground arith

pub checked_i64_id : (z : ℤ) → pos_part z < 2 ^ 63 → neg_part z ≤ 2 ^ 63 → checked_i64 z ≡ some z
checked_i64_id (pos n) h k = ground arith
checked_i64_id (negsuc n) h k = ground arith

-- What an `i64` operation returns is an `i64`.
pub wrap_i64-InI64 : (z : ℤ) → InI64 (wrap_i64 z)
unfolding wrap_i64
wrap_i64-InI64 (pos n) = ground arith
wrap_i64-InI64 (negsuc n) = ground arith
