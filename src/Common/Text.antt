-- ===== src/Common/Text.antt =====
-- Text as a list of character codes, and the parts of Rust's text library that the code calls.
use Prim.Native.Char.{code}
use Prim.Native.String.{String}
use Prim.Native.Nat.{ℕ, zero, suc, ◌+◌, ◌/◌, ◌%◌}
use mathlib.Core.Path.{◌≡◌, refl}
use mathlib.Core.Logic.{◌↔◌}
use mathlib.Core.Bool.{Bool, true, false, ◌&&◌}
use mathlib.Core.List.{List, [], ◌∷◌}
use native.Mathlib.Omega.{arith}
use myelon.Common.Tests.{ltb, ◌==◌, if◌then◌else◌}

abbrev pub Text : Type 0
Text = List ℕ

-- The codes of a literal.
abbrev pub codes : String → Text
codes String.[] = []
codes (String.◌∷◌ c s) = code c ∷ codes s

infix 50 ◌==ₜ◌
unfoldable pub ◌==ₜ◌ : Text → Text → Bool
[] ==ₜ [] = true
[] ==ₜ (y ∷ ys) = false
(x ∷ xs) ==ₜ [] = false
(x ∷ xs) ==ₜ (y ∷ ys) = x == y && xs ==ₜ ys

pub ==ₜ→eq : (a b : Text) → (a ==ₜ b) ≡ true → a ≡ b
unfolding ◌==ₜ◌
==ₜ→eq [] [] h = refl
==ₜ→eq [] (y ∷ ys) h = ground arith
==ₜ→eq (x ∷ xs) [] h = ground arith
==ₜ→eq (x ∷ xs) (y ∷ ys) h = ground (arith, ==ₜ→eq xs ys)

pub ==ₜ_refl : (a : Text) → (a ==ₜ a) ≡ true
unfolding ◌==ₜ◌
==ₜ_refl [] = refl
==ₜ_refl (x ∷ xs) = ground (arith, ==ₜ_refl xs)

pub ==ₜ_iff : (a b : Text) → ((a ==ₜ b) ≡ true) ↔ (a ≡ b)
==ₜ_iff a b = (==ₜ→eq a b, λ e. rw e (==ₜ_refl b))

-- `format!("{}", n)` and `format!("{:x}", n)`, with enough fuel for the digits of `n`.
unfoldable pub digit : ℕ → ℕ
digit d = if ltb d 10 then 48 + d else 87 + d

unfoldable pub radix_fuel : ℕ → ℕ → ℕ → Text → Text
unfolding digit
radix_fuel base zero n rest = rest
radix_fuel base (suc f) n rest =
    let rest' = digit (n % base) ∷ rest in
    let more = radix_fuel base f (n / base) rest' in if ltb n base then rest' else more

unfoldable pub decimal : ℕ → Text
unfolding radix_fuel
decimal n = radix_fuel 10 (suc n) n []

unfoldable pub hex : ℕ → Text
unfolding radix_fuel
hex n = radix_fuel 16 (suc n) n []
