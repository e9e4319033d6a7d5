-- ===== src/Prelude/Bits/Step.antt =====
-- One equation for the lowest digit of each native bit operation.
use Prim.Native.Nat.{
  ℕ, zero, suc, ◌+◌, ◌-◌, ◌*◌, ◌/◌, ◌%◌, ◌^◌, ◌≤◌, ◌<◌, min, max, differ, digits, bitwise, bit_and,
  bit_or, bit_xor, bit_and-bitwise, bit_or-bitwise, bit_xor-bitwise,
}
use mathlib.Core.Path.{◌≡◌, refl, ap, ◌∙◌}
use native.Mathlib.Numerals.{unary_clauses}
use native.Mathlib.Nat.{pow-suc}
use native.Mathlib.Omega.{arith}

module _ (tail : ℕ → ℕ) (join : ℕ → ℕ → ℕ) where
  -- Both sides of the next lemma have fuel for a digit more.
  same_head :
      (fuel extra x y : ℕ)
      → (0 < x
          → digits tail join (fuel + extra) (x / 2) (y / 2) ≡ digits tail join fuel (x / 2) (y / 2))
      → digits tail join (suc (fuel + extra)) x y ≡ digits tail join (suc fuel) x y
  same_head fuel extra zero y later = refl
  same_head fuel extra (suc x) y later =
      ap (λ rest. rest * 2 + join (suc x % 2) (y % 2)) (later (omega arith))

  -- The recursion of `digits` never looks at fuel beyond its first number.
  spare_fuel :
      (fuel extra x y : ℕ)
      → x ≤ fuel
      → digits tail join (fuel + extra) x y ≡ digits tail join fuel x y
  spare_fuel zero extra (suc x) y enough = absurd (omega arith)
  spare_fuel zero zero zero y enough = refl
  spare_fuel zero (suc extra) zero y enough = simp unary_clauses refl
  spare_fuel (suc fuel) extra x y enough =
      let one_more : suc fuel + extra ≡ suc (fuel + extra) = omega arith in
      ap (λ n. digits tail join n x y) one_more
      ∙ same_head fuel extra x y (λ more. spare_fuel fuel extra (x / 2) (y / 2) (omega arith))

  low_digit :
      (x y : ℕ)
      → bitwise tail join (suc x) y
        ≡ join (suc x % 2) (y % 2) + 2 * bitwise tail join (suc x / 2) (y / 2)
  low_digit x y =
      let half = suc x / 2 in
      let fuel_left : digits tail join x half (y / 2) ≡ digits tail join half half (y / 2) =
        ap (λ fuel. digits tail join fuel half (y / 2)) (omega arith)
        ∙ spare_fuel half (x - half) half (y / 2) (omega arith) in
      omega (arith, fuel_left)

-- On two binary digits `differ` is addition without carry.
differ-eq-mod : (x y : ℕ) → x < 2 → y < 2 → differ x y ≡ (x + y) % 2
differ-eq-mod zero y p q = omega arith
differ-eq-mod (suc zero) zero p q = refl
differ-eq-mod (suc zero) (suc zero) p q = refl
differ-eq-mod (suc zero) (suc (suc y)) p q = absurd (omega arith)
differ-eq-mod (suc (suc x)) y p q = absurd (omega arith)

xor_digit : (a b : ℕ) → bit_xor a b ≡ bit_xor (a / 2) (b / 2) * 2 + differ (a % 2) (b % 2)
xor_digit zero b = simp bit_xor-bitwise (omega arith)
xor_digit (suc a) b = simp bit_xor-bitwise (omega (arith, low_digit (λ y. y) differ a b))

pub xor_step : (a b : ℕ) → bit_xor a b ≡ bit_xor (a / 2) (b / 2) * 2 + (a + b) % 2
xor_step a b = omega (arith, xor_digit a b, differ-eq-mod (a % 2) (b % 2))

pub bit_and_step : (x y : ℕ) → bit_and x y ≡ min (x % 2) (y % 2) + 2 * bit_and (x / 2) (y / 2)
bit_and_step zero y = simp bit_and-bitwise (omega arith)
bit_and_step (suc x) y = simp bit_and-bitwise (low_digit (λ d. 0) min x y)

pub zero-xor : (b : ℕ) → bit_xor 0 b ≡ b
zero-xor b = bit_xor-bitwise 0 b

pub bit_or_step : (x y : ℕ) → bit_or x y ≡ max (x % 2) (y % 2) + 2 * bit_or (x / 2) (y / 2)
bit_or_step zero y = simp bit_or-bitwise (omega arith)
bit_or_step (suc x) y = simp bit_or-bitwise (low_digit (λ d. d) max x y)

pub zero-or : (b : ℕ) → bit_or 0 b ≡ b
zero-or b = bit_or-bitwise 0 b

-- Shifting by one place more doubles.
pub doubled : (k x : ℕ) → x * 2 ^ suc k ≡ x * 2 ^ k + x * 2 ^ k
doubled k x = let power = ap (λ (p : ℕ). x * p) (pow-suc 2 k) in omega (arith, power)
