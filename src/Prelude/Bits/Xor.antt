-- ===== src/Prelude/Bits/Xor.antt =====
-- The laws of `^`: a commutative group in which every element is its own inverse, bounded by the
-- width of its arguments, and computed separately on the high and the low bits.
use Prim.Native.Nat.{ℕ, zero, suc, ◌+◌, ◌*◌, ◌/◌, ◌%◌, ◌^◌, ◌<◌, bit_xor}
use mathlib.Core.Path.{◌≡◌, refl, sym, ap, ◌∙◌}
use mathlib.Core.WellFounded
use native.Mathlib.Nat.{pow-suc}
use native.Mathlib.Omega.{arith}
use embed_beetroot_hw_2_7_pr.Prelude.Order.{lt_wf}
use embed_beetroot_hw_2_7_pr.Prelude.Bits.Step.{xor_step, zero-xor, doubled}

pub xor_div : (a b : ℕ) → bit_xor a b / 2 ≡ bit_xor (a / 2) (b / 2)
xor_div a b = omega (arith, xor_step a b)

pub xor_mod : (a b : ℕ) → bit_xor a b % 2 ≡ (a + b) % 2
xor_mod a b = omega (arith, xor_step a b)

-- Each law goes from the halves to the whole.
pub xor_comm : (a b : ℕ) → bit_xor a b ≡ bit_xor b a
xor_comm a = WellFounded.induction lt_wf {C = λ a. (b : ℕ) → bit_xor a b ≡ bit_xor b a} a step
  where
    zero_case : (b : ℕ) → bit_xor 0 b ≡ bit_xor b 0
    zero_case b = WellFounded.induction lt_wf {C = λ b. bit_xor 0 b ≡ bit_xor b 0} b inner
      where
        inner : (b : ℕ) → ((c : ℕ) → c < b → bit_xor 0 c ≡ bit_xor c 0) → bit_xor 0 b ≡ bit_xor b 0
        inner zero ih = refl
        inner (suc b) ih =
            omega (arith, xor_step 0 (suc b), xor_step (suc b) 0, ih (suc b / 2) (omega arith))

    step :
        (a : ℕ)
        → ((c : ℕ) → c < a → (b : ℕ) → bit_xor c b ≡ bit_xor b c)
        → (b : ℕ) → bit_xor a b ≡ bit_xor b a
    step zero ih b = zero_case b
    step (suc a) ih b =
        omega (arith, xor_step (suc a) b, xor_step b (suc a), ih (suc a / 2) (omega arith) (b / 2))

pub xor-zero : (a : ℕ) → bit_xor a 0 ≡ a
xor-zero a = xor_comm a 0 ∙ zero-xor a

pub xor_self : (a : ℕ) → bit_xor a a ≡ 0
xor_self a = WellFounded.induction lt_wf {C = λ a. bit_xor a a ≡ 0} a step
  where
    step : (a : ℕ) → ((c : ℕ) → c < a → bit_xor c c ≡ 0) → bit_xor a a ≡ 0
    step zero ih = refl
    step (suc a) ih = omega (arith, xor_step (suc a) (suc a), ih (suc a / 2) (omega arith))

pub xor_assoc : (a b c : ℕ) → bit_xor (bit_xor a b) c ≡ bit_xor a (bit_xor b c)
xor_assoc a =
    WellFounded.induction lt_wf
      {C = λ a. (b c : ℕ) → bit_xor (bit_xor a b) c ≡ bit_xor a (bit_xor b c)} a step
  where
    step :
        (a : ℕ)
        → ((d : ℕ) → d < a → (b c : ℕ) → bit_xor (bit_xor d b) c ≡ bit_xor d (bit_xor b c))
        → (b c : ℕ) → bit_xor (bit_xor a b) c ≡ bit_xor a (bit_xor b c)
    step zero ih b c = rw (zero-xor b, zero-xor (bit_xor b c))
    step (suc a) ih b c =
        let left : bit_xor (bit_xor (suc a) b) c
            ≡ bit_xor (bit_xor (suc a / 2) (b / 2)) (c / 2) * 2 + (bit_xor (suc a) b + c) % 2 =
          xor_step (bit_xor (suc a) b) c ∙ (rw (xor_div (suc a) b)) in
        let right : bit_xor (suc a) (bit_xor b c)
            ≡ bit_xor (suc a / 2) (bit_xor (b / 2) (c / 2)) * 2 + (suc a + bit_xor b c) % 2 =
          xor_step (suc a) (bit_xor b c) ∙ (rw (xor_div b c)) in
        omega (
          arith,
          left,
          right,
          ih (suc a / 2) (omega arith) (b / 2) (c / 2),
          xor_mod (suc a) b,
          xor_mod b c,
        )

xor_cancel : (a b : ℕ) → bit_xor a (bit_xor a b) ≡ b
xor_cancel a b = sym (xor_assoc a a b) ∙ (rw (xor_self a, zero-xor b))

pub xor-injective : (a b c : ℕ) → bit_xor a b ≡ bit_xor a c → b ≡ c
xor-injective a b c e = sym (xor_cancel a b) ∙ ap (bit_xor a) e ∙ xor_cancel a c

-- No bit appears above the arguments' width.
pub xor-lt : (k a b : ℕ) → a < 2 ^ k → b < 2 ^ k → bit_xor a b < 2 ^ k
xor-lt zero a b p q =
    let ea : a ≡ 0 = omega arith in let eb : b ≡ 0 = omega arith in rw (ea, eb) (omega arith)
xor-lt (suc k) a b p q = omega (
  arith,
  pow-suc 2 k,
  xor_step a b,
  xor-lt k (a / 2) (b / 2) (omega (arith, pow-suc 2 k)) (omega (arith, pow-suc 2 k)),
)

half_fields : (k a c : ℕ) → (a * 2 ^ suc k + c) / 2 ≡ a * 2 ^ k + c / 2
half_fields k a c = omega (arith, doubled k a)

-- `^` works on the two parts of a word independently.
pub xor_fields :
    (k a b c d : ℕ)
    → c < 2 ^ k
    → d < 2 ^ k
    → bit_xor (a * 2 ^ k + c) (b * 2 ^ k + d) ≡ bit_xor a b * 2 ^ k + bit_xor c d
xor_fields zero a b c d p q =
    let ec : c ≡ 0 = omega arith in
    let ed : d ≡ 0 = omega arith in
    let low : bit_xor c d ≡ 0 = rw (ec, ed) refl in
    let ea : a * 2 ^ 0 + c ≡ a = omega arith in
    let eb : b * 2 ^ 0 + d ≡ b = omega arith in rw (ea, eb) (omega arith)
xor_fields (suc k) a b c d p q =
    let ih =
      xor_fields k a b (c / 2) (d / 2) (omega (arith, pow-suc 2 k)) (omega (arith, pow-suc 2 k)) in
    let halves : bit_xor ((a * 2 ^ suc k + c) / 2) ((b * 2 ^ suc k + d) / 2)
        ≡ bit_xor a b * 2 ^ k + bit_xor (c / 2) (d / 2) =
      rw (half_fields k a c, half_fields k b d) ih in
    omega (
      arith,
      xor_step (a * 2 ^ suc k + c) (b * 2 ^ suc k + d),
      halves,
      xor_step c d,
      doubled k a,
      doubled k b,
      doubled k (bit_xor a b),
    )
