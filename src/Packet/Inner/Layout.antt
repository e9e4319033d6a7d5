-- ===== src/Packet/Inner/Layout.antt =====
-- The packets that are accepted are exactly those of the layout; hence a damaged one is refused.
use embed_beetroot_hw_2_7_pr.Prelude.{
  ℕ, ◌+◌, ◌<◌, ◌≤◌, ◌≡◌, ◌↔◌, refl, sym, ap, ◌∙◌, subst, arith, some, none, inl, inr, ◌≢◌,
  Option-cases, List, [], ◌∷◌, ◌++◌, length, length-append, take-append_length, ltb, false, IsBytes,
  IsBytes-append, IsBytes-take, IsBytes-drop, take, drop,
}
use embed_beetroot_hw_2_7_pr.Crc.{crc16}
use embed_beetroot_hw_2_7_pr.Crc.Reference.{crc16-lt}
use embed_beetroot_hw_2_7_pr.Crc.Detect.{crc16_burst, crc16_residue}
use embed_beetroot_hw_2_7_pr.Packet.Words.{le16, rd_u16le, rd_u16le-lt}
use embed_beetroot_hw_2_7_pr.Packet.Inner.{InnerPacket, river2_inner_build, river2_inner_parse}
use embed_beetroot_hw_2_7_pr.Packet.Inner.Wire.{
  header_of, packet_of, app_bytes, AreBytes, header_of-IsBytes, river2_inner_build_lem,
}
use embed_beetroot_hw_2_7_pr.Packet.Inner.Parse.{IsAccepted, fields_at, accepted}
use embed_beetroot_hw_2_7_pr.Packet.Inner.RoundTrip.{
  length-slice, layout, river2_inner_parse-packet_of,
}

-- `bytes` is the layout of the fields of `p`, with some seven bytes that are not read.
pub record IsLayout (bytes : List ℕ) (p : InnerPacket) : Type 0 where
  pub unread : List ℕ
  pub seven : length unread ≡ 7
  pub unread_bytes : IsBytes unread
  pub addresses : AreBytes p.src p.dst p.cmd_set p.cmd_id
  pub payload_bytes : IsBytes p.payload
  pub fits : length p.payload < 65536
  pub length_field : p.payload_len ≡ length p.payload
  pub whole : bytes ≡ packet_of unread p.src p.dst p.cmd_set p.cmd_id p.payload

accepted-IsLayout :
    (bytes : List ℕ)
    → IsBytes bytes
    → IsAccepted bytes
    → IsLayout bytes (fields_at bytes (rd_u16le bytes 2))
accepted-IsLayout
      (b0 ∷ b1 ∷ b2 ∷ b3 ∷ b4 ∷ b5 ∷ b6 ∷ b7 ∷ b8 ∷ b9 ∷ b10 ∷ b11 ∷ b12 ∷ b13 ∷ b14 ∷ b15 ∷ rest)
      hb ok =
    let bytes =
      b0 ∷ b1 ∷ b2 ∷ b3 ∷ b4 ∷ b5 ∷ b6 ∷ b7 ∷ b8 ∷ b9 ∷ b10 ∷ b11 ∷ b12 ∷ b13 ∷ b14 ∷ b15 ∷ rest in
    let slice_length =
      length-slice b0 b1 b2 b3 b4 b5 b6 b7 b8 b9 b10 b11 b12 b13 b14 b15 rest hb ok in
    record {
      unread = b5 ∷ b6 ∷ b7 ∷ b8 ∷ b9 ∷ b10 ∷ b11 ∷ [];
      seven = refl;
      unread_bytes = omega (arith, hb);
      addresses = omega (arith, hb);
      payload_bytes = IsBytes-take (rd_u16le bytes 2) rest (IsBytes-drop 16 bytes hb);
      fits = omega (arith, slice_length, rd_u16le-lt bytes 2);
      length_field = sym slice_length;
      whole = layout b0 b1 b2 b3 b4 b5 b6 b7 b8 b9 b10 b11 b12 b13 b14 b15 rest hb ok;
    }
accepted-IsLayout bytes hb ok = absurd (omega (arith, ok.long))

-- On a string of bytes, `river2_inner_parse` returns `p` exactly when the string is the layout of
-- `p`'s fields.
pub river2_inner_parse-IsLayout :
    (bytes : List ℕ) (p : InnerPacket)
    → IsBytes bytes
    → (river2_inner_parse bytes ≡ some p) ↔ IsLayout bytes p
river2_inner_parse-IsLayout bytes p hb = (
  (λ h.
      let (ok, e) = accepted bytes p h in
      subst (IsLayout bytes) (sym e) (accepted-IsLayout bytes hb ok)),
  (λ l.
      rw
        (
          l.whole,
          river2_inner_parse-packet_of l.unread p.src p.dst p.cmd_set p.cmd_id p.payload l.seven
              l.unread_bytes l.addresses l.payload_bytes l.fits,
          ← l.length_field,
        )
        refl),
)

IsLayout-residue : (bytes : List ℕ) (p : InnerPacket) → IsLayout bytes p → crc16 bytes ≡ 0
IsLayout-residue bytes p l =
    let header = header_of l.unread p.src p.dst p.cmd_set p.cmd_id (length p.payload) in
    let body_bytes =
      IsBytes-append header p.payload
        (header_of-IsBytes l.unread p.src p.dst p.cmd_set p.cmd_id (length p.payload) l.unread_bytes
          l.addresses l.fits)
        l.payload_bytes in
    let small = crc16-lt (header ++ p.payload) body_bytes in
    ap crc16 l.whole
    ∙ (crc16_residue (header ++ p.payload) _ _ body_bytes (omega arith) (omega arith)).1
        (omega arith)

-- A packet of bytes that is accepted is refused after damage that is confined to two neighbouring
-- bytes, or to one of them.
pub river2_inner_parse_damaged :
    (before after : List ℕ) (a b a' b' : ℕ) (p : InnerPacket)
    → IsBytes before
    → IsBytes (a ∷ b ∷ after)
    → IsBytes (a' ∷ b' ∷ after)
    → river2_inner_parse (before ++ a ∷ b ∷ after) ≡ some p
    → a ∷ b ∷ [] ≢ a' ∷ b' ∷ []
    → river2_inner_parse (before ++ a' ∷ b' ∷ after) ≡ none
river2_inner_parse_damaged before after a b a' b' p hx hy hz e differ =
    elim (Option-cases (river2_inner_parse (before ++ a' ∷ b' ∷ after))) [
      | inl refused ↦ refused
      | inr (q, e') ↦ absurd (
          crc16_burst before after a b a' b' hx hy hz differ
            (zero_sum a b p hy e ∙ sym (zero_sum a' b' q hz e')))
    ]
  where
    zero_sum :
        (x y : ℕ) (q : InnerPacket)
        → IsBytes (x ∷ y ∷ after)
        → river2_inner_parse (before ++ x ∷ y ∷ after) ≡ some q
        → crc16 (before ++ x ∷ y ∷ after) ≡ 0
    zero_sum x y q h e =
        let bytes = before ++ x ∷ y ∷ after in
        IsLayout-residue bytes q
          ((river2_inner_parse-IsLayout bytes q (IsBytes-append before _ hx h)).0 e)

-- What `river2_inner_build` wrote into a buffer with room for it, cut to the returned length,
-- parses to the arguments it was built from.
pub river2_inner_parse-build :
    (src dst cmd_set cmd_id : ℕ) (payload out : List ℕ) (out_cap : ℕ)
    → AreBytes src dst cmd_set cmd_id
    → IsBytes payload
    → length payload < 65536
    → 18 + length payload ≤ out_cap
    → out_cap ≤ length out
    → let (total, out') = river2_inner_build src dst cmd_set cmd_id payload out out_cap in
      river2_inner_parse (take total out')
      ≡ some (record {
        src = src;
        dst = dst;
        cmd_set = cmd_set;
        cmd_id = cmd_id;
        payload = payload;
        payload_len = length payload;
      })
river2_inner_parse-build src dst cmd_set cmd_id payload out out_cap hs hp hn room cap =
    let n = length payload in
    let packet = packet_of app_bytes src dst cmd_set cmd_id payload in
    let enough : ltb out_cap (18 + n) ≡ false = ground arith in
    let built : river2_inner_build src dst cmd_set cmd_id payload out out_cap
        ≡ (18 + n, packet ++ drop (18 + n) out) =
      river2_inner_build_lem src dst cmd_set cmd_id payload out out_cap hs hp hn cap
      ∙ (rw enough refl) in
    let header = header_of app_bytes src dst cmd_set cmd_id n in
    let size : 18 + n ≡ length packet = omega (
      arith,
      length-append (header ++ payload) (le16 (crc16 (header ++ payload))),
      length-append header payload,
    ) in
    ap (λ r. river2_inner_parse (take r.0 r.1)) built
    ∙ ap river2_inner_parse (take-append_length (18 + n) packet (drop (18 + n) out) size)
    ∙ river2_inner_parse-packet_of app_bytes src dst cmd_set cmd_id payload refl (omega arith) hs hp
        hn
