-- ===== src/Prelude/Bits/Or.antt =====
-- `|` of two fields that share no bit is their sum.
use Prim.Native.Nat.{ℕ, zero, suc, ◌+◌, ◌*◌, ◌/◌, ◌^◌, ◌<◌, bit_or}
use mathlib.Core.Path.{◌≡◌}
use native.Mathlib.Nat.{pow-suc}
use native.Mathlib.Omega.{arith}
use embed_beetroot_hw_2_7_pr.Prelude.Bits.Step.{bit_or_step, zero-or, doubled}

pub or_fields : (k lo hi : ℕ) → lo < 2 ^ k → bit_or lo (hi * 2 ^ k) ≡ hi * 2 ^ k + lo
or_fields zero lo hi h =
    let none_below : lo ≡ 0 = omega arith in rw (none_below, zero-or) (omega arith)
or_fields (suc k) lo hi h =
    let half : hi * 2 ^ suc k / 2 ≡ hi * 2 ^ k = omega (arith, doubled k hi) in
    let rest : bit_or (lo / 2) (hi * 2 ^ suc k / 2) ≡ hi * 2 ^ k + lo / 2 =
      rw half (or_fields k (lo / 2) hi (omega (arith, pow-suc 2 k))) in
    omega (arith, bit_or_step lo (hi * 2 ^ suc k), rest, doubled k hi)
