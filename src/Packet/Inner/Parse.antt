-- ===== src/Packet/Inner/Parse.antt =====
-- `river2_inner_parse` branch by branch: the checks that it makes, and what it returns when all
-- of them pass.
use embed_beetroot_hw_2_7_pr.Prelude.{
  ℕ, zero, suc, ◌+◌, ◌-◌, ◌≤◌, ◌≡◌, refl, sym, ap, ◌∙◌, arith, some, List, [], length, drop, take,
  get_or, ltb, if◌then◌else◌, unguarded, of_some, Bool, false, not, ◌||◌, ◌==◌,
}
use embed_beetroot_hw_2_7_pr.Crc.{crc8, crc16}
use embed_beetroot_hw_2_7_pr.Packet.Words.{rd_u16le}
use embed_beetroot_hw_2_7_pr.Packet.Inner.{InnerPacket, river2_inner_parse}

-- What the returned structure holds.
abbrev pub fields_at : List ℕ → ℕ → InnerPacket
fields_at bytes n = record {
  src = get_or bytes 12 0;
  dst = get_or bytes 13 0;
  cmd_set = get_or bytes 14 0;
  cmd_id = get_or bytes 15 0;
  payload = take n (drop 16 bytes);
  payload_len = n;
}

-- The checks, all passed.
pub record IsAccepted (bytes : List ℕ) : Type 0 where
  pub long : 18 ≤ length bytes
  pub prefix : get_or bytes 0 0 ≡ 0xAA
  pub version : get_or bytes 1 0 ≡ 0x02
  pub whole : length bytes ≡ 18 + rd_u16le bytes 2
  pub sum8 : crc8 (take 4 bytes) ≡ get_or bytes 4 0
  pub sum16 : rd_u16le bytes (length bytes - 2) ≡ crc16 (take (length bytes - 2) bytes)

slice_lem : (n : ℕ) (xs : List ℕ) → (if ltb 0 n then take n xs else []) ≡ take n xs
slice_lem zero xs = refl
slice_lem (suc n) xs = ground arith

-- The four tests of the source, in order.
abbrev bad_start : List ℕ → Bool
bad_start bytes =
    ltb (length bytes) 18 || not (get_or bytes 0 0 == 0xAA) || not (get_or bytes 1 0 == 0x02)

abbrev bad_length : List ℕ → Bool
bad_length bytes = not (length bytes == 18 + rd_u16le bytes 2)

abbrev bad_sum8 : List ℕ → Bool
bad_sum8 bytes = not (crc8 (take 4 bytes) == get_or bytes 4 0)

abbrev bad_sum16 : List ℕ → Bool
bad_sum16 bytes = not (rd_u16le bytes (length bytes - 2) == crc16 (take (length bytes - 2) bytes))

tests_pass :
    (bytes : List ℕ)
    → bad_start bytes ≡ false
    → bad_length bytes ≡ false
    → bad_sum8 bytes ≡ false
    → bad_sum16 bytes ≡ false
    → IsAccepted bytes
tests_pass bytes h1 h2 h3 h4 = record {
  long = ground arith;
  prefix = ground arith;
  version = ground arith;
  whole = ground arith;
  sum8 = ground arith;
  sum16 = ground arith;
}

pub accepted :
    (bytes : List ℕ) (p : InnerPacket)
    → river2_inner_parse bytes ≡ some p
    → IsAccepted bytes × (p ≡ fields_at bytes (rd_u16le bytes 2))
unfolding river2_inner_parse
accepted bytes p h =
    let (h1, r1) = unguarded (bad_start bytes) _ h in
    let (h2, r2) = unguarded (bad_length bytes) _ r1 in
    let (h3, r3) = unguarded (bad_sum8 bytes) _ r2 in
    let (h4, r4) = unguarded (bad_sum16 bytes) _ r3 in
    (
      tests_pass bytes h1 h2 h3 h4,
      sym (of_some r4)
          ∙ ap (λ slice. record (fields_at bytes (rd_u16le bytes 2)) { payload = slice })
              (slice_lem (rd_u16le bytes 2) (drop 16 bytes)),
    )

pub accepts :
    (bytes : List ℕ)
    → IsAccepted bytes
    → river2_inner_parse bytes ≡ some (fields_at bytes (rd_u16le bytes 2))
unfolding river2_inner_parse
accepts bytes a = ground (arith, slice_lem (rd_u16le bytes 2) (drop 16 bytes))
