-- ===== src/Packet/Inner/RoundTrip.antt =====
-- `river2_inner_parse` accepts exactly the byte strings of the protocol's layout, and returns the
-- fields that they were made from.
use embed_beetroot_hw_2_7_pr.Prelude.{
  ℕ, ◌+◌, ◌-◌, ◌*◌, ◌/◌, ◌%◌, ◌<◌, ◌≡◌, refl, sym, ap, ap₂, ◌∙◌, arith, some, List, [], ◌∷◌, ◌++◌,
  length, length-append, length-drop, length-take, subst, drop, take, take-append_length,
  take-append-drop, IsBytes, IsBytes-append, IsBytes-take, IsBytes-drop,
}
use embed_beetroot_hw_2_7_pr.Crc.{crc16}
use embed_beetroot_hw_2_7_pr.Crc.Reference.{crc16-lt}
use embed_beetroot_hw_2_7_pr.Packet.Words.{le16, rd_u16le, rd_u16le_lem, rd_u16le-append}
use embed_beetroot_hw_2_7_pr.Packet.Inner.{river2_inner_parse}
use embed_beetroot_hw_2_7_pr.Packet.Inner.Wire.{header_of, packet_of, header_of-IsBytes, AreBytes}
use embed_beetroot_hw_2_7_pr.Packet.Inner.Parse.{IsAccepted, accepts}

packet_of-length : (body : List ℕ) (v : ℕ) → length (body ++ le16 v) ≡ length body + 2
packet_of-length body v = length-append body (le16 v)

module _ (u0 u1 u2 u3 u4 u5 u6 src dst cmd_set cmd_id : ℕ) (payload : List ℕ) where
  abbrev unread : List ℕ
  unread = u0 ∷ u1 ∷ u2 ∷ u3 ∷ u4 ∷ u5 ∷ u6 ∷ []

  abbrev body : List ℕ
  body = header_of unread src dst cmd_set cmd_id (length payload) ++ payload

  abbrev whole : List ℕ
  whole = packet_of unread src dst cmd_set cmd_id payload

  module _ (bytes : IsBytes body) (fits : length payload < 65536) where
    length-whole : length whole ≡ 18 + length payload
    length-whole = omega (arith, packet_of-length body (crc16 body))

    length_field : rd_u16le whole 2 ≡ length payload
    length_field =
        rd_u16le-append (0xAA ∷ 0x02 ∷ []) _ 2 (length payload % 256) (length payload / 256) refl
          (omega arith) (omega arith)
        ∙ (omega arith)

    whole-IsAccepted : IsAccepted whole
    whole-IsAccepted =
        let at : length whole - 2 ≡ length body = omega (arith, length-whole) in
        let small = crc16-lt body bytes in
        record {
          long = omega (arith, length-whole);
          prefix = refl;
          version = refl;
          whole = omega (arith, length-whole, length_field);
          sum8 = refl;
          sum16 =
              rd_u16le-append body [] (length whole - 2) _ _ at (omega arith) (omega arith)
              ∙ (omega arith)
              ∙ ap crc16 (sym (take-append_length (length whole - 2) body (le16 (crc16 body)) at));
        }

    parse_whole :
        river2_inner_parse whole
        ≡ some (record {
          src = src;
          dst = dst;
          cmd_set = cmd_set;
          cmd_id = cmd_id;
          payload = payload;
          payload_len = length payload;
        })
    parse_whole =
        accepts whole whole-IsAccepted
        ∙ (rw (length_field, take-append_length (length payload) payload (le16 (crc16 body)) refl)
            refl)

-- Every packet of the layout is accepted, whatever stands in the seven bytes that are not read,
-- and yields the fields and the payload that it was made from.
pub river2_inner_parse-packet_of :
    (unread : List ℕ) (src dst cmd_set cmd_id : ℕ) (payload : List ℕ)
    → length unread ≡ 7
    → IsBytes unread
    → AreBytes src dst cmd_set cmd_id
    → IsBytes payload
    → length payload < 65536
    → river2_inner_parse (packet_of unread src dst cmd_set cmd_id payload)
      ≡ some (record {
        src = src;
        dst = dst;
        cmd_set = cmd_set;
        cmd_id = cmd_id;
        payload = payload;
        payload_len = length payload;
      })
river2_inner_parse-packet_of (u0 ∷ u1 ∷ u2 ∷ u3 ∷ u4 ∷ u5 ∷ u6 ∷ []) src dst cmd_set cmd_id payload
      seven hu hs hp fits =
    parse_whole u0 u1 u2 u3 u4 u5 u6 src dst cmd_set cmd_id payload
      (IsBytes-append
        (header_of (u0 ∷ u1 ∷ u2 ∷ u3 ∷ u4 ∷ u5 ∷ u6 ∷ []) src dst cmd_set cmd_id (length payload))
        payload
        (header_of-IsBytes (u0 ∷ u1 ∷ u2 ∷ u3 ∷ u4 ∷ u5 ∷ u6 ∷ []) src dst cmd_set cmd_id
          (length payload) hu hs fits)
        hp)
      fits
river2_inner_parse-packet_of unread src dst cmd_set cmd_id payload seven hu hs hp fits =
    absurd (omega arith)

two_left : (xs : List ℕ) → length xs ≡ 2 → (lo : ℕ) × ((hi : ℕ) × (xs ≡ lo ∷ hi ∷ []))
two_left [] h = absurd (omega arith)
two_left (lo ∷ []) h = absurd (omega arith)
two_left (lo ∷ hi ∷ []) h = (lo, (hi, refl))
two_left (lo ∷ hi ∷ x ∷ xs) h = absurd (omega arith)

-- A string that was accepted, cut into its sixteen header bytes and the rest.
module _ (b0 b1 b2 b3 b4 b5 b6 b7 b8 b9 b10 b11 b12 b13 b14 b15 : ℕ) (rest : List ℕ) where
  abbrev header : List ℕ
  header = b0 ∷ b1 ∷ b2 ∷ b3 ∷ b4 ∷ b5 ∷ b6 ∷ b7 ∷ b8 ∷ b9 ∷ b10 ∷ b11 ∷ b12 ∷ b13 ∷ b14 ∷ b15 ∷ []

  module _ (bytes : IsBytes (header ++ rest)) (ok : IsAccepted (header ++ rest)) where
    abbrev n : ℕ
    n = rd_u16le (header ++ rest) 2

    abbrev slice : List ℕ
    slice = take n rest

    n_lem : n ≡ b3 * 256 + b2
    n_lem = rd_u16le_lem (header ++ rest) 2 bytes

    length-rest : length rest ≡ n + 2
    length-rest = omega (arith, ok.whole)

    pub length-slice : length slice ≡ n
    length-slice = omega (arith, length-take n rest, length-rest)

    rest-IsBytes : IsBytes rest
    rest-IsBytes = IsBytes-drop 16 (header ++ rest) bytes

    body-IsBytes : IsBytes (header ++ slice)
    body-IsBytes =
        IsBytes-append header slice (IsBytes-take 16 (header ++ rest) bytes)
          (IsBytes-take n rest rest-IsBytes)

    -- The two bytes behind the payload are its CRC16's.
    crc_pair :
        (lo hi : ℕ)
        → drop n rest ≡ lo ∷ hi ∷ []
        → (lo ≡ crc16 (header ++ slice) % 256) × (hi ≡ crc16 (header ++ slice) / 256)
    crc_pair lo hi e =
        let m = length (header ++ rest) - 2 in
        let at : m ≡ length (header ++ slice) = omega (arith, length-slice, length-rest) in
        let pair_bytes : IsBytes (lo ∷ hi ∷ []) =
          subst IsBytes e (IsBytes-drop n rest rest-IsBytes) in
        let split : header ++ rest ≡ (header ++ slice) ++ lo ∷ hi ∷ [] =
          ap (◌++◌ header) (sym (take-append-drop n rest) ∙ ap (◌++◌ slice) e) in
        let front : take m (header ++ rest) ≡ header ++ slice =
          ap (take m) split ∙ take-append_length m (header ++ slice) (lo ∷ hi ∷ []) at in
        let word : rd_u16le (header ++ rest) m ≡ hi * 256 + lo =
          ap (λ t. rd_u16le t m) split
          ∙ rd_u16le-append (header ++ slice) [] m lo hi at pair_bytes.0 pair_bytes.1.0 in
        let crc : crc16 (header ++ slice) ≡ hi * 256 + lo =
          ap crc16 (sym front) ∙ sym ok.sum16 ∙ word in
        omega (arith, pair_bytes)

    trailer : rest ≡ slice ++ le16 (crc16 (header ++ slice))
    trailer =
        let (lo, (hi, e)) =
          two_left (drop n rest) (omega (arith, length-drop n rest, length-rest)) in
        let (e_lo, e_hi) = crc_pair lo hi e in
        sym (take-append-drop n rest) ∙ ap (◌++◌ slice) (e ∙ ap₂ (λ x y. x ∷ y ∷ []) e_lo e_hi)

    pub layout :
        header ++ rest ≡ packet_of (b5 ∷ b6 ∷ b7 ∷ b8 ∷ b9 ∷ b10 ∷ b11 ∷ []) b12 b13 b14 b15 slice
    layout =
        let e2 : b2 ≡ length slice % 256 = omega (arith, n_lem, length-slice, bytes) in
        let e3 : b3 ≡ length slice / 256 = omega (arith, n_lem, length-slice, bytes) in
        cc (ok.prefix, ok.version, ok.sum8, e2, e3, trailer)
