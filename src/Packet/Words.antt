-- ===== src/Packet/Words.antt =====
-- `rd_u16le` and `wr_u16le`, which both packet layers use, and the addresses of the boards.
use embed_beetroot_hw_2_7_pr.Prelude.{
  ℕ, suc, ◌+◌, ◌*◌, ◌/◌, ◌%◌, ◌^◌, ◌<◌, ◌≤◌, ◌≡◌, refl, arith, bit_and, bit_or, List, [], ◌∷◌, ◌++◌,
  length, get_or, set, u8, u16, ◌<<<◌, ◌>>>◌, get_or-append, get_or-append_right, set-append,
  IsBytes, IsBytes-get_or,
}
use embed_beetroot_hw_2_7_pr.Prelude.Bits.{bit_and_byte, or_fields}

abbrev pub river2_frame_command : ℕ
river2_frame_command = 0x00

abbrev pub river2_frame_data : ℕ
river2_frame_data = 0x01

abbrev pub river2_addr_app : ℕ
river2_addr_app = 0x21

abbrev pub river2_addr_auth : ℕ
river2_addr_auth = 0x35

abbrev pub river2_addr_pd : ℕ
river2_addr_pd = 0x02

abbrev pub river2_addr_mppt : ℕ
river2_addr_mppt = 0x05

abbrev pub river2_cmdset_heartbeat : ℕ
river2_cmdset_heartbeat = 0x20

abbrev pub river2_cmdid_heartbeat : ℕ
river2_cmdid_heartbeat = 0x02

-- `rd_u16le(&p[i])`
unfoldable pub rd_u16le : List ℕ → ℕ → ℕ
rd_u16le p i = u16 (bit_or (get_or p i 0) (get_or p (i + 1) 0 <<< 8))

-- `wr_u16le(&p[i], v)`
unfoldable pub wr_u16le : List ℕ → ℕ → ℕ → List ℕ
wr_u16le p i v = set (set p i (u8 (bit_and v 0xFF))) (i + 1) (u8 (v >>> 8))

-- The two bytes of a word, low byte first.
abbrev pub le16 : ℕ → List ℕ
le16 v = (v % 256) ∷ (v / 256) ∷ []

pub rd_u16le_lem :
    (p : List ℕ) (i : ℕ) → IsBytes p → rd_u16le p i ≡ get_or p (i + 1) 0 * 256 + get_or p i 0
unfolding rd_u16le
rd_u16le_lem p i h =
    let low = IsBytes-get_or p i h in
    let high = IsBytes-get_or p (i + 1) h in
    rw (or_fields 8 (get_or p i 0) (get_or p (i + 1) 0) low) (omega arith)

-- A word that stands at position `i`.
pub rd_u16le-append :
    (front rest : List ℕ) (i lo hi : ℕ)
    → i ≡ length front
    → lo < 256
    → hi < 256
    → rd_u16le (front ++ lo ∷ hi ∷ rest) i ≡ hi * 256 + lo
unfolding rd_u16le
rd_u16le-append front rest i lo hi at hl hh =
    rw
      (
        get_or-append_right front (lo ∷ hi ∷ rest) i 0 0 (omega arith),
        get_or-append_right front (lo ∷ hi ∷ rest) (i + 1) 1 0 (omega arith),
        or_fields 8 lo hi hl,
      )
      (omega arith)

pub wr_u16le-append :
    (front rest : List ℕ) (i a b v : ℕ)
    → i ≡ length front
    → v < 65536
    → wr_u16le (front ++ a ∷ b ∷ rest) i v ≡ front ++ (le16 v ++ rest)
unfolding wr_u16le
wr_u16le-append front rest i a b v at hv =
    let low : bit_and v 0xFF % 2 ^ 8 ≡ v % 256 = rw (bit_and_byte v) (omega arith) in
    let high : v / 2 ^ 8 % 2 ^ 8 ≡ v / 256 = omega arith in
    rw
      (
        low,
        high,
        set-append front (a ∷ b ∷ rest) i 0 (v % 256) (omega arith),
        set-append front ((v % 256) ∷ b ∷ rest) (i + 1) 1 (v / 256) (omega arith),
      )
      refl

le16-IsBytes : (v : ℕ) → v < 65536 → IsBytes (le16 v)
le16-IsBytes v h = (omega arith, (omega arith, tt))

pub rd_u16le-lt : (p : List ℕ) (i : ℕ) → rd_u16le p i < 65536
unfolding rd_u16le
rd_u16le-lt p i = omega arith

-- Bytes that follow do not change a word in front of them.
pub rd_u16le-append_left :
    (p rest : List ℕ) (i : ℕ) → suc (i + 1) ≤ length p → rd_u16le (p ++ rest) i ≡ rd_u16le p i
unfolding rd_u16le
rd_u16le-append_left p rest i h =
    rw (get_or-append p rest i 0 (omega arith), get_or-append p rest (i + 1) 0 (omega arith)) refl
