-- ===== src/Common/Bits.antt =====
-- A mask of ones under `&`, from the digit recursion that the native operation stands for.
use Prim.Native.Nat.{
  ℕ, zero, suc, ◌+◌, ◌-◌, ◌*◌, ◌/◌, ◌%◌, ◌^◌, ◌≤◌, ◌<◌, min, bit_and, digits, bit_and-bitwise,
}
use mathlib.Core.Path.{◌≡◌, refl, ap, ◌∙◌}
use native.Mathlib.Omega.{arith}
use native.Mathlib.Nat.{pow-suc, one-le-pow, le_refl, mod-eq_of_lt, add-zero, add-suc, mul_assoc}

abbrev no_digit : ℕ → ℕ
no_digit y = 0

-- Fuel beyond the first operand changes nothing.
spare_fuel :
    (x y fuel more : ℕ)
    → x ≤ fuel
    → fuel ≤ more
    → digits no_digit min more x y ≡ digits no_digit min fuel x y
spare_fuel zero y zero zero enough up = refl
spare_fuel zero y zero (suc more) enough up = refl
spare_fuel zero y (suc fuel) zero enough up = absurd (omega arith)
spare_fuel zero y (suc fuel) (suc more) enough up = refl
spare_fuel (suc x) y zero more enough up = absurd (omega arith)
spare_fuel (suc x) y (suc fuel) zero enough up = absurd (omega arith)
spare_fuel (suc x) y (suc fuel) (suc more) enough up =
    rw (spare_fuel (suc x / 2) (y / 2) fuel more (omega arith) (omega arith))

-- `&` on the lowest digit and on the rest.
low_digit : (x y : ℕ) → bit_and x y ≡ min (x % 2) (y % 2) + 2 * bit_and (x / 2) (y / 2)
low_digit zero y = simp bit_and-bitwise (omega arith)
low_digit (suc x) y =
    simp bit_and-bitwise
      (omega (arith, spare_fuel (suc x / 2) (y / 2) (suc x / 2) x (le_refl _) (omega arith)))

nothing_left : (bound x : ℕ) → x ≤ bound → bit_and x 0 ≡ 0
nothing_left bound zero h = refl
nothing_left zero (suc x) h = absurd (omega arith)
nothing_left (suc bound) (suc x) h =
    omega (arith, low_digit (suc x) 0, nothing_left bound (suc x / 2) (omega arith))

shifted : (q k : ℕ) → q * 2 ^ suc k ≡ 2 * (q * 2 ^ k)
shifted q k = omega (arith, ap (λ (t : ℕ). q * t) (pow-suc 2 k))

-- Of a number in two parts, the mask of the low part's width leaves the low part.
low_part : (k high low : ℕ) → low < 2 ^ k → bit_and (high * 2 ^ k + low) (2 ^ k - 1) ≡ low
low_part zero high low h =
    rw (nothing_left (high * 1 + low) (high * 1 + low) (le_refl _)) (omega arith)
low_part (suc k) high low h = ground (
  arith,
  one-le-pow k 2,
  low_digit (high * 2 ^ suc k + low) (2 ^ suc k - 1),
  shifted high k,
  pow-suc 2 k,
  low_part k high (low / 2) (omega (arith, pow-suc 2 k)),
)

-- A mask of `k` ones takes the remainder by `2 ^ k`.
pub bit_and_mask : (k a : ℕ) → bit_and a (2 ^ k - 1) ≡ a % 2 ^ k
bit_and_mask k a = ground (arith, one-le-pow k 2, low_part k (a / 2 ^ k) (a % 2 ^ k))

-- Of a number in two parts, the complement of that mask, in `j` more digits, leaves the high part.
pub bit_and_clear :
    (k j high low : ℕ)
    → high < 2 ^ j
    → low < 2 ^ k
    → bit_and (high * 2 ^ k + low) ((2 ^ j - 1) * 2 ^ k) ≡ high * 2 ^ k
bit_and_clear zero j high low h l =
    let plain : bit_and high (2 ^ j - 1) ≡ high = bit_and_mask j high ∙ mod-eq_of_lt h in
    let same : high * 1 + low ≡ high = omega arith in
    let mask : (2 ^ j - 1) * 1 ≡ 2 ^ j - 1 = omega arith in rw (same, mask, plain) (omega arith)
bit_and_clear (suc k) j high low h l = ground (
  arith,
  low_digit (high * 2 ^ suc k + low) ((2 ^ j - 1) * 2 ^ suc k),
  shifted high k,
  shifted (2 ^ j - 1) k,
  pow-suc 2 k,
  bit_and_clear k j high (low / 2) h (omega (arith, pow-suc 2 k)),
)

pub pow_add : (i j : ℕ) → 2 ^ (i + j) ≡ 2 ^ i * 2 ^ j
pow_add i zero = rw (add-zero i) (omega arith)
pow_add i (suc j) =
    rw (add-suc i j, pow-suc 2 (i + j), pow-suc 2 j, pow_add i j) (mul_assoc (2 ^ i) (2 ^ j) 2)
