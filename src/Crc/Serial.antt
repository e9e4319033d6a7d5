-- ===== src/Crc/Serial.antt =====
-- The CRC8 as the shift register of its polynomial x^8 + x^2 + x + 1, which takes a bit at a time,
-- the highest of each byte first.
use embed_beetroot_hw_2_7_pr.Prelude.{
  ℕ, zero, suc, ◌+◌, ◌*◌, ◌/◌, ◌%◌, ◌^◌, ◌<◌, ◌&&◌, ◌==◌, ==_iff, bit_xor, ◌≡◌, refl, sym, ap, ap₂,
  ◌∙◌, arith, Bool, true, Bool-cases, inl, inr, List, [], ◌∷◌, IsBytes,
}
use embed_beetroot_hw_2_7_pr.Prelude.Bits.{xor-lt, xor-zero, xor_assoc, xor_comm, xor_fields}
use embed_beetroot_hw_2_7_pr.Crc.{CrcState, crc8_round, rounds, river2_crc8}
use embed_beetroot_hw_2_7_pr.Crc.Tables.{IsValid, IsBuilt}
use embed_beetroot_hw_2_7_pr.Crc.Linear.{rounds8-lt}
use embed_beetroot_hw_2_7_pr.Crc.Reference.{register8, river2_crc8-register}

-- One clock: the bit that falls out at the top meets the message's bit, and feeds back.
abbrev pub clock8 : ℕ → ℕ → ℕ
clock8 crc bit = let out = bit_xor (crc / 128) bit in bit_xor (crc % 128 * 2) (out * 0x07)

-- `n` bits of a byte, the highest first.
abbrev pub serial_bits8 : ℕ → ℕ → ℕ → ℕ
serial_bits8 zero crc b = crc
serial_bits8 (suc n) crc b = serial_bits8 n (clock8 crc (b / 128)) (b % 128 * 2)

abbrev pub serial8 : ℕ → List ℕ → ℕ
serial8 crc [] = crc
serial8 crc (b ∷ bytes) = serial8 (serial_bits8 8 crc b) bytes

-- A test that holds of every number below a bound, by trying them all.
all_below : ℕ → (ℕ → Bool) → Bool
all_below zero test = true
all_below (suc n) test = test n && all_below n test

all_below-at : (n x : ℕ) (test : ℕ → Bool) → all_below n test ≡ true → x < n → test x ≡ true
unfolding all_below
all_below-at zero x test h below = absurd (omega arith)
all_below-at (suc n) x test h below = elim (Bool-cases (x == n)) [
  | inl same ↦ rw ((==_iff x n).0 same) (ground (arith, h))
  | inr other ↦ all_below-at n x test (ground (arith, h)) (ground (arith, other, below))
]

crc8_round_lem : (x : ℕ) → x < 256 → crc8_round x ≡ clock8 x 0
unfolding all_below crc8_round
crc8_round_lem x h =
    (==_iff (crc8_round x) (clock8 x 0)).0
      (all_below-at 256 x (λ x. crc8_round x == clock8 x 0) refl h)

-- What is left of a byte after `n` of its bits.
unread : ℕ → ℕ → ℕ
unread zero b = b
unread (suc n) b = unread n (b % 128 * 2)

unread-all : (b : ℕ) → b < 256 → unread 8 b ≡ 0
unfolding all_below unread
unread-all b h = (==_iff (unread 8 b) 0).0 (all_below-at 256 b (λ b. unread 8 b == 0) refl h)

xor_double : (c d : ℕ) → bit_xor c d * 2 ≡ bit_xor (c * 2) (d * 2)
xor_double c d =
    let left : c * 2 ^ 1 + 0 ≡ c * 2 = omega arith in
    let right : d * 2 ^ 1 + 0 ≡ d * 2 = omega arith in
    let fields : bit_xor (c * 2) (d * 2) ≡ bit_xor c d * 2 ^ 1 + bit_xor 0 0 =
      ap₂ bit_xor (sym left) (sym right) ∙ xor_fields 1 c d 0 0 (omega arith) (omega arith) in
    omega (arith, fields, xor-zero 0)

-- The register before the byte is let in, bit by bit.
round-clock8 :
    (crc b : ℕ)
    → crc < 256
    → b < 256
    → crc8_round (bit_xor crc b) ≡ bit_xor (clock8 crc (b / 128)) (b % 128 * 2)
round-clock8 crc b hc hb =
    let p = crc / 128 in
    let q = b / 128 in
    let c = crc % 128 in
    let d = b % 128 in
    let fields : bit_xor crc b ≡ bit_xor p q * 128 + bit_xor c d =
      ap₂ bit_xor {x = crc} (omega arith) (omega arith)
      ∙ xor_fields 7 p q c d (omega arith) (omega arith) in
    let low : bit_xor c d < 2 ^ 7 = xor-lt 7 c d (omega arith) (omega arith) in
    let high : bit_xor crc b / 128 ≡ bit_xor p q = omega arith in
    let rest : bit_xor crc b % 128 ≡ bit_xor c d = omega arith in
    let x = bit_xor crc b in
    let out = bit_xor p q * 0x07 in
    crc8_round_lem x (xor-lt 8 crc b hc hb)
    ∙ ap₂ (λ l h. bit_xor (l * 2) (h * 0x07)) rest (xor-zero (x / 128) ∙ high)
    ∙ ap (λ t. bit_xor t out) (xor_double c d)
    ∙ xor_assoc (c * 2) (d * 2) out
    ∙ ap (bit_xor (c * 2)) (xor_comm (d * 2) out)
    ∙ sym (xor_assoc (c * 2) out (d * 2))

clock8-lt : (crc bit : ℕ) → crc < 256 → bit < 2 → clock8 crc bit < 256
clock8-lt crc bit h hb =
    let out : bit_xor (crc / 128) bit < 2 ^ 1 = xor-lt 1 _ _ (omega arith) (omega arith) in
    xor-lt 8 _ _ (omega arith) (omega arith)

rounds-serial8 :
    (n crc b : ℕ)
    → crc < 256
    → b < 256
    → rounds crc8_round n (bit_xor crc b) ≡ bit_xor (serial_bits8 n crc b) (unread n b)
unfolding rounds unread
rounds-serial8 zero crc b hc hb = refl
rounds-serial8 (suc n) crc b hc hb =
    ap (rounds crc8_round n) (round-clock8 crc b hc hb)
    ∙ rounds-serial8 n (clock8 crc (b / 128)) (b % 128 * 2)
        (clock8-lt crc (b / 128) hc (omega arith)) (omega arith)

byte-serial8 :
    (crc b : ℕ) → crc < 256 → b < 256 → rounds crc8_round 8 (bit_xor crc b) ≡ serial_bits8 8 crc b
byte-serial8 crc b hc hb =
    rounds-serial8 8 crc b hc hb
    ∙ ap (bit_xor (serial_bits8 8 crc b)) (unread-all b hb)
    ∙ xor-zero (serial_bits8 8 crc b)

register8-serial :
    (bytes : List ℕ) (crc : ℕ) → crc < 256 → IsBytes bytes → register8 crc bytes ≡ serial8 crc bytes
register8-serial [] crc h bs = refl
register8-serial (b ∷ bytes) crc h bs =
    register8-serial bytes _ (rounds8-lt 8 _ (xor-lt 8 crc b h bs.0)) bs.1
    ∙ ap (λ r. serial8 r bytes) (byte-serial8 crc b h bs.0)

-- From any valid statics, built or not, `river2_crc8` over bytes returns what the bit-serial shift
-- register of x^8 + x^2 + x + 1 returns, which takes the highest bit of each byte first, and leaves
-- tables that are built and right.
pub river2_crc8-serial :
    (s : CrcState) (bytes : List ℕ)
    → IsValid s
    → IsBytes bytes
    → ((river2_crc8 s bytes).0 ≡ serial8 0 bytes) × IsBuilt (river2_crc8 s bytes).1
river2_crc8-serial s bytes v bs =
    let (same, built) = river2_crc8-register s bytes v bs in
    (same ∙ register8-serial bytes 0 (omega arith) bs, built)
