-- ===== src/Crc/Linear.antt =====
-- The bytewise table step is eight rounds of the bitwise register, since a round is linear
-- over `^`.
use embed_beetroot_hw_2_7_pr.Prelude.{
  ℕ, zero, suc, ◌+◌, ◌*◌, ◌/◌, ◌%◌, ◌^◌, ◌<◌, bit_xor, ◌≡◌, refl, sym, ap, ◌∙◌, arith,
}
use native.Mathlib.Nat.{pow-suc}
use embed_beetroot_hw_2_7_pr.Prelude.Bits.{
  xor_div, xor_mod, xor_comm, xor_assoc, xor-zero, zero-xor, xor-lt, xor_fields, bit_and-one,
}
use embed_beetroot_hw_2_7_pr.Crc.{crc8_round, crc16_round, rounds}

-- (a ^ b) ^ (c ^ d) = (a ^ c) ^ (b ^ d)
xor_interchange :
    (a b c d : ℕ) → bit_xor (bit_xor a b) (bit_xor c d) ≡ bit_xor (bit_xor a c) (bit_xor b d)
xor_interchange a b c d =
    xor_assoc a b (bit_xor c d)
    ∙ ap (bit_xor a)
        (sym (xor_assoc b c d) ∙ ap (λ t. bit_xor t d) (xor_comm b c) ∙ xor_assoc c b d)
    ∙ sym (xor_assoc a c (bit_xor b d))

-- The polynomial, taken by the bit that falls out.
abbrev feedback : ℕ → ℕ
feedback x = x % 2 * 0xA001

feedback_bits : (p q : ℕ) → p < 2 → q < 2 → (p + q) % 2 * 0xA001 ≡ bit_xor (p * 0xA001) (q * 0xA001)
feedback_bits zero zero hp hq = refl
feedback_bits zero (suc zero) hp hq = refl
feedback_bits (suc zero) zero hp hq = refl
feedback_bits (suc zero) (suc zero) hp hq = refl
feedback_bits zero (suc (suc q)) hp hq = absurd (omega arith)
feedback_bits (suc zero) (suc (suc q)) hp hq = absurd (omega arith)
feedback_bits (suc (suc p)) q hp hq = absurd (omega arith)

feedback-xor : (x y : ℕ) → feedback (bit_xor x y) ≡ bit_xor (feedback x) (feedback y)
feedback-xor x y =
    omega (arith, xor_mod x y, feedback_bits (x % 2) (y % 2) (omega arith) (omega arith))

pub crc16_round_lem : (x : ℕ) → x < 2 ^ 16 → crc16_round x ≡ bit_xor (x / 2) (feedback x)
unfolding crc16_round
crc16_round_lem x h =
    ground
      (arith, bit_and-one x, xor-zero (x / 2), xor-lt 16 (x / 2) 0xA001 (omega arith) (omega arith))

pub crc16_round-lt : (x : ℕ) → crc16_round x < 2 ^ 16
unfolding crc16_round
crc16_round-lt x = ground arith

crc8_round-lt : (x : ℕ) → crc8_round x < 2 ^ 8
unfolding crc8_round
crc8_round-lt x = ground arith

pub rounds16-lt : (n x : ℕ) → x < 2 ^ 16 → rounds crc16_round n x < 2 ^ 16
unfolding rounds
rounds16-lt zero x h = h
rounds16-lt (suc n) x h = rounds16-lt n (crc16_round x) (crc16_round-lt x)

pub rounds8-lt : (n x : ℕ) → x < 2 ^ 8 → rounds crc8_round n x < 2 ^ 8
unfolding rounds
rounds8-lt zero x h = h
rounds8-lt (suc n) x h = rounds8-lt n (crc8_round x) (crc8_round-lt x)

crc16_round-xor :
    (x y : ℕ)
    → x < 2 ^ 16
    → y < 2 ^ 16
    → crc16_round (bit_xor x y) ≡ bit_xor (crc16_round x) (crc16_round y)
crc16_round-xor x y hx hy =
    rw
      (
        crc16_round_lem (bit_xor x y) (xor-lt 16 x y hx hy),
        crc16_round_lem x hx,
        crc16_round_lem y hy,
        xor_div x y,
        feedback-xor x y,
      )
      (xor_interchange (x / 2) (y / 2) (feedback x) (feedback y))

pub rounds16-xor :
    (n x y : ℕ)
    → x < 2 ^ 16
    → y < 2 ^ 16
    → rounds crc16_round n (bit_xor x y) ≡ bit_xor (rounds crc16_round n x) (rounds crc16_round n y)
unfolding rounds
rounds16-xor zero x y hx hy = refl
rounds16-xor (suc n) x y hx hy =
    ap (rounds crc16_round n) (crc16_round-xor x y hx hy)
    ∙ rounds16-xor n (crc16_round x) (crc16_round y) (crc16_round-lt x) (crc16_round-lt y)

-- Bits that are still on their way down meet no feedback.
pub rounds16_shift : (n m : ℕ) → m * 2 ^ n < 2 ^ 16 → rounds crc16_round n (m * 2 ^ n) ≡ m
unfolding rounds
rounds16_shift zero m h = omega arith
rounds16_shift (suc n) m h =
    ap (rounds crc16_round n) round_down ∙ rounds16_shift n m (omega (arith, double))
  where
    double : m * 2 ^ suc n ≡ 2 * (m * 2 ^ n)
    double = omega (arith, ap (λ (t : ℕ). m * t) (pow-suc 2 n))

    round_down : crc16_round (m * 2 ^ suc n) ≡ m * 2 ^ n
    round_down =
        let even : m * 2 ^ suc n % 2 ≡ 0 = omega (arith, double) in
        rw (crc16_round_lem (m * 2 ^ suc n) h, even, xor-zero (m * 2 ^ suc n / 2))
          (omega (arith, double))

-- The table step of `river2_crc16`, with the table's entry written as the rounds that made it.
abbrev table_step16 : ℕ → ℕ → ℕ
table_step16 crc b = bit_xor (rounds crc16_round 8 (bit_xor crc b % 256)) (crc / 256)

xor_byte : (crc b : ℕ) → b < 256 → bit_xor crc b ≡ crc / 256 * 256 + bit_xor (crc % 256) b
xor_byte crc b h =
    let whole : crc / 256 * 2 ^ 8 + crc % 256 ≡ crc = omega arith in
    let byte : 0 * 2 ^ 8 + b ≡ b = omega arith in
    rw (whole, byte, xor-zero (crc / 256)) at
      (xor_fields 8 (crc / 256) 0 (crc % 256) b (omega arith) h)

-- A word is the `^` of its two bytes, each in its place.
pub xor_of_bytes : (hi lo : ℕ) → lo < 256 → bit_xor (hi * 2 ^ 8) lo ≡ hi * 256 + lo
xor_of_bytes hi lo h =
    let high : hi * 2 ^ 8 + 0 ≡ hi * 2 ^ 8 = omega arith in
    let low : 0 * 2 ^ 8 + lo ≡ lo = omega arith in
    rw (high, low, xor-zero hi, zero-xor lo) at (xor_fields 8 hi 0 0 lo (omega arith) h)

pub table_step16-rounds :
    (crc b : ℕ) → crc < 2 ^ 16 → b < 256 → table_step16 crc b ≡ rounds crc16_round 8 (bit_xor crc b)
table_step16-rounds crc b hc hb =
    let low_lt : bit_xor (crc % 256) b < 2 ^ 8 = xor-lt 8 (crc % 256) b (omega arith) hb in
    let split = xor_byte crc b hb in
    let low : bit_xor crc b % 256 ≡ bit_xor (crc % 256) b = omega arith in
    rw (low, split, ← xor_of_bytes (crc / 256) (bit_xor (crc % 256) b) low_lt)
      (rw
        (
          rounds16-xor 8 (crc / 256 * 2 ^ 8) (bit_xor (crc % 256) b) (omega arith) (omega arith),
          rounds16_shift 8 (crc / 256) (omega arith),
        )
        (xor_comm _ _))
