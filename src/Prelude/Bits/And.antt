-- ===== src/Prelude/Bits/And.antt =====
-- The two masks of the CRC loops, `& 1` and `& 0xFF`, as remainders.
use Prim.Native.Nat.{ℕ, zero, suc, ◌/◌, ◌%◌, ◌<◌, bit_and}
use mathlib.Core.Path.{◌≡◌, refl}
use native.Mathlib.Omega.{arith}
use embed_beetroot_hw_2_7_pr.Prelude.Bits.Step.{bit_and_step}

zero_below : (bound a : ℕ) → a < bound → bit_and a 0 ≡ 0
zero_below (suc bound) zero h = refl
zero_below (suc bound) (suc a) h =
    let halved = zero_below bound (suc a / 2) (omega arith) in
    omega (arith, halved, bit_and_step (suc a) 0)
zero_below zero a h = absurd (omega arith)

bit_and-zero_right : (a : ℕ) → bit_and a 0 ≡ 0
bit_and-zero_right a = zero_below (suc a) a (omega arith)

pub bit_and-one : (a : ℕ) → bit_and a 1 ≡ a % 2
bit_and-one a = omega (arith, bit_and_step a 1, bit_and-zero_right (a / 2))

bit_and_nibble : (a : ℕ) → bit_and a 15 ≡ a % 16
bit_and_nibble a = omega (
  arith,
  bit_and_step a 15,
  bit_and_step (a / 2) 7,
  bit_and_step (a / 2 / 2) 3,
  bit_and-one (a / 2 / 2 / 2),
)

pub bit_and_byte : (a : ℕ) → bit_and a 0xFF ≡ a % 256
bit_and_byte a = omega (
  arith,
  bit_and_step a 255,
  bit_and_step (a / 2) 127,
  bit_and_step (a / 2 / 2) 63,
  bit_and_step (a / 2 / 2 / 2) 31,
  bit_and_nibble (a / 2 / 2 / 2 / 2),
)
