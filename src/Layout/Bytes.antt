-- ===== src/Layout/Bytes.antt =====
-- Numbers as bytes in memory, lowest first, and the hash over the bytes.
use myelon.Common.{
  ℕ, zero, suc, ◌+◌, ◌*◌, ◌/◌, ◌%◌, ◌^◌, ◌<◌, ◌≡◌, refl, ap, arith, List, [], ◌∷◌, ◌++◌, length,
  take, drop, bit_xor,
}
use myelon.Common.Word.{u32}
use native.Mathlib.Nat.{pow-suc}

unfoldable pub to_le_bytes : ℕ → ℕ → List ℕ
to_le_bytes zero n = []
to_le_bytes (suc k) n = (n % 256) ∷ to_le_bytes k (n / 256)

unfoldable pub from_le_bytes : List ℕ → ℕ
from_le_bytes [] = 0
from_le_bytes (b ∷ bytes) = b + 256 * from_le_bytes bytes

pub length-to_le_bytes : (k n : ℕ) → length (to_le_bytes k n) ≡ k
unfolding to_le_bytes
length-to_le_bytes zero n = refl
length-to_le_bytes (suc k) n = ap suc (length-to_le_bytes k (n / 256))

pub from_le_bytes-to_le_bytes : (k n : ℕ) → n < 256 ^ k → from_le_bytes (to_le_bytes k n) ≡ n
unfolding to_le_bytes from_le_bytes
from_le_bytes-to_le_bytes zero n h = omega arith
from_le_bytes-to_le_bytes (suc k) n h =
    omega (arith, from_le_bytes-to_le_bytes k (n / 256) (omega (arith, pow-suc 256 k)))

-- The number in the first `k` bytes, and the bytes after them.
unfoldable pub split_le : ℕ → List ℕ → ℕ × List ℕ
unfolding from_le_bytes
split_le k bytes = (from_le_bytes (take k bytes), drop k bytes)

-- `checksum32`, from a hash on.
unfoldable pub checksum_loop : ℕ → List ℕ → ℕ
checksum_loop hash [] = hash
checksum_loop hash (byte ∷ bytes) = checksum_loop (u32 (bit_xor hash byte * 0x01000193)) bytes

unfoldable pub checksum32 : List ℕ → ℕ
unfolding checksum_loop
checksum32 bytes = checksum_loop 0x811C9DC5 bytes

checksum_loop-lt : (hash : ℕ) (bytes : List ℕ) → hash < 2 ^ 32 → checksum_loop hash bytes < 2 ^ 32
unfolding checksum_loop
checksum_loop-lt hash [] h = h
checksum_loop-lt hash (byte ∷ bytes) h =
    checksum_loop-lt (u32 (bit_xor hash byte * 0x01000193)) bytes (omega arith)

pub checksum32-lt : (bytes : List ℕ) → checksum32 bytes < 2 ^ 32
unfolding checksum32
checksum32-lt bytes = checksum_loop-lt 0x811C9DC5 bytes (omega arith)

pub take-append_length : (k : ℕ) (xs ys : List ℕ) → length xs ≡ k → take k (xs ++ ys) ≡ xs
take-append_length zero [] ys e = refl
take-append_length zero (x ∷ xs) ys e = absurd (omega arith)
take-append_length (suc k) [] ys e = absurd (omega arith)
take-append_length (suc k) (x ∷ xs) ys e =
    ap (λ r. x ∷ r) (take-append_length k xs ys (omega arith))

pub drop-append_length : (k : ℕ) (xs ys : List ℕ) → length xs ≡ k → drop k (xs ++ ys) ≡ ys
drop-append_length zero [] ys e = refl
drop-append_length zero (x ∷ xs) ys e = absurd (omega arith)
drop-append_length (suc k) [] ys e = absurd (omega arith)
drop-append_length (suc k) (x ∷ xs) ys e = drop-append_length k xs ys (omega arith)

pub split_le-to_le_bytes :
    (k n : ℕ) (rest : List ℕ) → n < 256 ^ k → split_le k (to_le_bytes k n ++ rest) ≡ (n, rest)
unfolding split_le
split_le-to_le_bytes k n rest h =
    let size = length-to_le_bytes k n in
    rw
      (
        take-append_length k (to_le_bytes k n) rest size,
        drop-append_length k (to_le_bytes k n) rest size,
        from_le_bytes-to_le_bytes k n h,
      )
      refl
