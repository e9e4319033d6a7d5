-- ===== src/Crc.antt =====
-- main/src/river2_crc.c: the two lookup tables, built on the first call, and the CRC loops over
-- them. The static arrays and the flag are a record that each call takes and returns.
pub mod Tables
pub mod Linear
pub mod Reference
pub mod Serial
pub mod Detect
mod Tests
use embed_beetroot_hw_2_7_pr.Prelude.{
  ℕ, zero, suc, ◌+◌, bit_and, bit_xor, Bool, true, false, List, [], ◌∷◌, ◌==◌, if◌then◌else◌,
  get_or, set, replicate, u8, u16, ◌<<<◌, ◌>>>◌,
}

pub record CrcState : Type 0 where
  pub crc8_table : List ℕ
  pub crc16_table : List ℕ
  pub tables_built : Bool

-- The statics before the first call: C clears them.
pub crc_start : CrcState
crc_start = record {
  crc8_table = replicate 256 0;
  crc16_table = replicate 256 0;
  tables_built = false;
}

-- The bodies of the two inner loops over `b`.
pub crc8_round : ℕ → ℕ
crc8_round crc = if bit_and crc 0x80 == 0 then u8 (crc <<< 1) else u8 (bit_xor (crc <<< 1) 0x07)

pub crc16_round : ℕ → ℕ
crc16_round crc = if bit_and crc 1 == 0 then u16 (crc >>> 1) else u16 (bit_xor (crc >>> 1) 0xA001)

pub rounds : (ℕ → ℕ) → ℕ → ℕ → ℕ
rounds round zero crc = crc
rounds round (suc n) crc = rounds round n (round crc)

-- The outer loop of `build_tables` at index `i`, with `left` indices to go.
pub fill_tables : ℕ → ℕ → CrcState → CrcState
fill_tables zero i s = s
fill_tables (suc left) i s = fill_tables left (i + 1) (record s {
  crc8_table = set s.crc8_table i (rounds crc8_round 8 (u8 i));
  crc16_table = set s.crc16_table i (rounds crc16_round 8 (u16 i));
})

pub build_tables : CrcState → CrcState
unfolding fill_tables rounds crc8_round crc16_round
build_tables s = record (fill_tables 256 0 s) { tables_built = true }

-- The two loops over the data. The indices are bytes, so the default is never taken.
pub crc8_loop : List ℕ → ℕ → List ℕ → ℕ
crc8_loop table crc [] = crc
crc8_loop table crc (b ∷ bytes) = crc8_loop table (get_or table (bit_xor crc b) 0) bytes

pub crc16_loop : List ℕ → ℕ → List ℕ → ℕ
crc16_loop table crc [] = crc
crc16_loop table crc (b ∷ bytes) =
    crc16_loop table (u16 (bit_xor (get_or table (bit_and (bit_xor crc b) 0xFF) 0) (crc >>> 8)))
      bytes

pub ensure_tables : CrcState → CrcState
unfolding build_tables
ensure_tables s = if s.tables_built then s else build_tables s

pub river2_crc8 : CrcState → List ℕ → ℕ × CrcState
unfolding ensure_tables crc8_loop
river2_crc8 s bytes = let s' = ensure_tables s in (crc8_loop s'.crc8_table 0 bytes, s')

pub river2_crc16 : CrcState → List ℕ → ℕ × CrcState
unfolding ensure_tables crc16_loop
river2_crc16 s bytes = let s' = ensure_tables s in (crc16_loop s'.crc16_table 0 bytes, s')

-- The results from the initial statics, which the callers' models use: `Crc.Tables` shows that
-- no later call returns anything else.
unfoldable pub crc8 : List ℕ → ℕ
unfolding river2_crc8 crc_start
crc8 bytes = (river2_crc8 crc_start bytes).0

unfoldable pub crc16 : List ℕ → ℕ
unfolding river2_crc16 crc_start
crc16 bytes = (river2_crc16 crc_start bytes).0
