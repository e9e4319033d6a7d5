-- ===== src/Crc/Tests.antt =====
-- Runs of the CRC functions, and the theorems about them at concrete messages.
use embed_beetroot_hw_2_7_pr.Prelude.{ℕ, ◌+◌, ◌*◌, ◌≡◌, ◌≢◌, ◌↔◌, refl, arith, List, [], ◌∷◌, ◌++◌}
use embed_beetroot_hw_2_7_pr.Crc.{crc_start, river2_crc8, river2_crc16, crc8, crc16}
use embed_beetroot_hw_2_7_pr.Crc.Tables.{IsBuilt, crc_start-IsValid}
use embed_beetroot_hw_2_7_pr.Crc.Reference.{serial16, river2_crc16-serial}
use embed_beetroot_hw_2_7_pr.Crc.Serial.{serial8, river2_crc8-serial}
use embed_beetroot_hw_2_7_pr.Crc.Detect.{crc16_burst, crc16_residue}

-- The check value of the CRC16 with this polynomial: "123456789" gives 0xBB3D.
abbrev digits : List ℕ
digits = 0x31 ∷ 0x32 ∷ 0x33 ∷ 0x34 ∷ 0x35 ∷ 0x36 ∷ 0x37 ∷ 0x38 ∷ 0x39 ∷ []

crc16-digits : crc16 digits ≡ 0xBB3D
unfolding crc16
crc16-digits = refl

crc8-digits : crc8 digits ≡ 0xF4
unfolding crc8
crc8-digits = refl

river2_crc16-serial_example :
    ((river2_crc16 crc_start digits).0 ≡ serial16 0 digits)
    × IsBuilt (river2_crc16 crc_start digits).1
river2_crc16-serial_example = river2_crc16-serial crc_start digits crc_start-IsValid (omega arith)

river2_crc8-serial_example :
    ((river2_crc8 crc_start digits).0 ≡ serial8 0 digits) × IsBuilt (river2_crc8 crc_start digits).1
river2_crc8-serial_example = river2_crc8-serial crc_start digits crc_start-IsValid (omega arith)

crc16_burst_example :
    crc16 ((1 ∷ 2 ∷ []) ++ 3 ∷ 4 ∷ 5 ∷ []) ≢ crc16 ((1 ∷ 2 ∷ []) ++ 3 ∷ 6 ∷ 5 ∷ [])
crc16_burst_example =
    crc16_burst (1 ∷ 2 ∷ []) (5 ∷ []) 3 4 3 6 (omega arith) (omega arith) (omega arith) (λ e. cc)

crc16_residue_example :
    (crc16 (digits ++ 0x3D ∷ 0xBB ∷ []) ≡ 0) ↔ (crc16 digits ≡ 0xBB * 256 + 0x3D)
crc16_residue_example = crc16_residue digits 0x3D 0xBB (omega arith) (omega arith) (omega arith)
