-- ===== src/Crc/Reference.antt =====
-- What the two functions compute, whatever the statics hold: the register that takes a byte at a
-- time, and for the CRC16 the shift register of the protocol, which takes a bit at a time.
use embed_beetroot_hw_2_7_pr.Prelude.{
  ℕ, zero, suc, ◌+◌, ◌*◌, ◌/◌, ◌%◌, ◌^◌, ◌<◌, bit_and, bit_xor, ◌≡◌, refl, sym, ap, ◌∙◌, arith,
  List, [], ◌∷◌, ◌++◌, IsBytes, get_or,
}
use native.Mathlib.Nat.{pow-suc}
use embed_beetroot_hw_2_7_pr.Prelude.Bits.{
  xor-lt, xor-zero, zero-xor, xor_assoc, xor_fields, bit_and_byte,
}
use embed_beetroot_hw_2_7_pr.Crc.{
  CrcState, crc_start, crc8_round, crc16_round, rounds, crc8_loop, crc16_loop, river2_crc8,
  river2_crc16, crc8, crc16,
}
use embed_beetroot_hw_2_7_pr.Crc.Tables.{IsValid, IsBuilt, ensure_tables-IsBuilt, crc_start-IsValid}
use embed_beetroot_hw_2_7_pr.Crc.Linear.{
  rounds8-lt, rounds16-lt, crc16_round_lem, rounds16-xor, rounds16_shift, table_step16-rounds,
}

-- The register after each byte.
abbrev pub register8 : ℕ → List ℕ → ℕ
register8 crc [] = crc
register8 crc (b ∷ bytes) = register8 (rounds crc8_round 8 (bit_xor crc b)) bytes

abbrev pub register16 : ℕ → List ℕ → ℕ
register16 crc [] = crc
register16 crc (b ∷ bytes) = register16 (rounds crc16_round 8 (bit_xor crc b)) bytes

pub register16-lt :
    (bytes : List ℕ) (crc : ℕ) → crc < 2 ^ 16 → IsBytes bytes → register16 crc bytes < 2 ^ 16
register16-lt [] crc h bs = h
register16-lt (b ∷ bytes) crc h bs =
    register16-lt bytes _ (rounds16-lt 8 _ (xor-lt 16 crc b h (omega (arith, bs.0)))) bs.1

register8-lt :
    (bytes : List ℕ) (crc : ℕ) → crc < 2 ^ 8 → IsBytes bytes → register8 crc bytes < 2 ^ 8
register8-lt [] crc h bs = h
register8-lt (b ∷ bytes) crc h bs =
    register8-lt bytes _ (rounds8-lt 8 _ (xor-lt 8 crc b h bs.0)) bs.1

pub register16-append :
    (xs ys : List ℕ) (crc : ℕ) → register16 crc (xs ++ ys) ≡ register16 (register16 crc xs) ys
register16-append [] ys crc = refl
register16-append (x ∷ xs) ys crc = register16-append xs ys _

crc8_loop-register :
    {s : CrcState} (b : IsBuilt s) (bytes : List ℕ) (crc : ℕ)
    → crc < 2 ^ 8
    → IsBytes bytes
    → crc8_loop s.crc8_table crc bytes ≡ register8 crc bytes
unfolding crc8_loop
crc8_loop-register b [] crc h bs = refl
crc8_loop-register b (x ∷ bytes) crc h bs =
    let in_range : bit_xor crc x < 2 ^ 8 = xor-lt 8 crc x h bs.0 in
    rw (b.entry8 (bit_xor crc x) in_range)
      (crc8_loop-register b bytes _ (rounds8-lt 8 _ in_range) bs.1)

crc16_loop-register :
    {s : CrcState} (b : IsBuilt s) (bytes : List ℕ) (crc : ℕ)
    → crc < 2 ^ 16
    → IsBytes bytes
    → crc16_loop s.crc16_table crc bytes ≡ register16 crc bytes
unfolding crc16_loop
crc16_loop-register b [] crc h bs = refl
crc16_loop-register {s} b (x ∷ bytes) crc h bs =
    let word : bit_xor crc x < 2 ^ 16 = xor-lt 16 crc x h (omega (arith, bs.0)) in
    let step : (bit_xor (get_or s.crc16_table (bit_and (bit_xor crc x) 0xFF) 0) (crc / 2 ^ 8))
          % 2 ^ 16
        ≡ rounds crc16_round 8 (bit_xor crc x) =
      rw
        (
          bit_and_byte (bit_xor crc x),
          b.entry16 (bit_xor crc x % 256) (omega arith),
          table_step16-rounds crc x h bs.0,
        )
        (omega (arith, rounds16-lt 8 _ word)) in
    rw step (crc16_loop-register b bytes _ (rounds16-lt 8 _ word) bs.1)

-- From any valid statics, built or not, the CRC8 of bytes is the register's, and the tables are
-- built and right afterwards.
pub river2_crc8-register :
    (s : CrcState) (bytes : List ℕ)
    → IsValid s
    → IsBytes bytes
    → ((river2_crc8 s bytes).0 ≡ register8 0 bytes) × IsBuilt (river2_crc8 s bytes).1
unfolding river2_crc8
river2_crc8-register s bytes v bs =
    let built = ensure_tables-IsBuilt s v in
    (crc8_loop-register built bytes 0 (omega arith) bs, built)

river2_crc16-register :
    (s : CrcState) (bytes : List ℕ)
    → IsValid s
    → IsBytes bytes
    → ((river2_crc16 s bytes).0 ≡ register16 0 bytes) × IsBuilt (river2_crc16 s bytes).1
unfolding river2_crc16
river2_crc16-register s bytes v bs =
    let built = ensure_tables-IsBuilt s v in
    (crc16_loop-register built bytes 0 (omega arith) bs, built)

crc8-register : (bytes : List ℕ) → IsBytes bytes → crc8 bytes ≡ register8 0 bytes
unfolding crc8
crc8-register bytes bs = (river2_crc8-register crc_start bytes crc_start-IsValid bs).0

pub crc16-register : (bytes : List ℕ) → IsBytes bytes → crc16 bytes ≡ register16 0 bytes
unfolding crc16
crc16-register bytes bs = (river2_crc16-register crc_start bytes crc_start-IsValid bs).0

pub crc8-lt : (bytes : List ℕ) → IsBytes bytes → crc8 bytes < 256
crc8-lt bytes bs = rw (crc8-register bytes bs) (register8-lt bytes 0 (omega arith) bs)

pub crc16-lt : (bytes : List ℕ) → IsBytes bytes → crc16 bytes < 65536
crc16-lt bytes bs = rw (crc16-register bytes bs) (register16-lt bytes 0 (omega arith) bs)

-- One clock of the reflected shift register with polynomial 0x8005, whose mirror image is 0xA001.
abbrev pub clock : ℕ → ℕ → ℕ
clock crc bit = let mixed = bit_xor crc bit in bit_xor (mixed / 2) (mixed % 2 * 0xA001)

-- `n` bits of a byte, the lowest first.
abbrev pub serial_bits : ℕ → ℕ → ℕ → ℕ
serial_bits zero crc b = crc
serial_bits (suc n) crc b = serial_bits n (clock crc (b % 2)) (b / 2)

abbrev pub serial16 : ℕ → List ℕ → ℕ
serial16 crc [] = crc
serial16 crc (b ∷ bytes) = serial16 (serial_bits 8 crc b) bytes

low_bit_apart : (b : ℕ) → bit_xor (b % 2) (b / 2 * 2 ^ 1) ≡ b
low_bit_apart b =
    let low : 0 * 2 ^ 1 + b % 2 ≡ b % 2 = omega arith in
    let high : b / 2 * 2 ^ 1 + 0 ≡ b / 2 * 2 ^ 1 = omega arith in
    (rw (low, high, zero-xor (b / 2), xor-zero (b % 2)) at
      (xor_fields 1 0 (b / 2) (b % 2) 0 (omega arith) (omega arith)))
    ∙ (omega arith)

clock-lt : (crc bit : ℕ) → crc < 2 ^ 16 → bit < 2 → clock crc bit < 2 ^ 16
clock-lt crc bit h hb =
    let mixed : bit_xor crc bit < 2 ^ 16 = xor-lt 16 crc bit h (omega arith) in
    xor-lt 16 _ _ (omega arith) (omega arith)

round-clock :
    (crc b : ℕ)
    → crc < 2 ^ 16
    → b < 2 ^ 16
    → crc16_round (bit_xor crc b) ≡ bit_xor (clock crc (b % 2)) (b / 2)
unfolding rounds
round-clock crc b h hb =
    let apart : bit_xor crc b ≡ bit_xor (bit_xor crc (b % 2)) (b / 2 * 2 ^ 1) =
      ap (bit_xor crc) (sym (low_bit_apart b)) ∙ sym (xor_assoc crc (b % 2) (b / 2 * 2 ^ 1)) in
    let mixed : bit_xor crc (b % 2) < 2 ^ 16 = xor-lt 16 crc (b % 2) h (omega arith) in
    rw
      (
        apart,
        rounds16-xor 1 (bit_xor crc (b % 2)) (b / 2 * 2 ^ 1) mixed (omega arith),
        rounds16_shift 1 (b / 2) (omega arith),
        crc16_round_lem (bit_xor crc (b % 2)) mixed,
      )
      refl

rounds-serial :
    (n crc b : ℕ)
    → crc < 2 ^ 16
    → b < 2 ^ n
    → b < 2 ^ 16
    → rounds crc16_round n (bit_xor crc b) ≡ serial_bits n crc b
unfolding rounds
rounds-serial zero crc b h hb hw =
    let none_left : b ≡ 0 = omega arith in rw (none_left, xor-zero crc) refl
rounds-serial (suc n) crc b h hb hw =
    ap (rounds crc16_round n) (round-clock crc b h hw)
    ∙ rounds-serial n (clock crc (b % 2)) (b / 2) (clock-lt crc (b % 2) h (omega arith))
        (omega (arith, pow-suc 2 n)) (omega arith)

register16-serial :
    (bytes : List ℕ) (crc : ℕ)
    → crc < 2 ^ 16
    → IsBytes bytes
    → register16 crc bytes ≡ serial16 crc bytes
register16-serial [] crc h bs = refl
register16-serial (b ∷ bytes) crc h bs =
    let word : bit_xor crc b < 2 ^ 16 = xor-lt 16 crc b h (omega (arith, bs.0)) in
    rw (← rounds-serial 8 crc b h bs.0 (omega (arith, bs.0)))
      (register16-serial bytes (rounds crc16_round 8 (bit_xor crc b)) (rounds16-lt 8 _ word) bs.1)

-- From any valid statics, built or not, `river2_crc16` over bytes returns what the bit-serial
-- shift register returns, and leaves tables that are built and right.
pub river2_crc16-serial :
    (s : CrcState) (bytes : List ℕ)
    → IsValid s
    → IsBytes bytes
    → ((river2_crc16 s bytes).0 ≡ serial16 0 bytes) × IsBuilt (river2_crc16 s bytes).1
river2_crc16-serial s bytes v bs =
    let (same, built) = river2_crc16-register s bytes v bs in
    (same ∙ register16-serial bytes 0 (omega arith) bs, built)
