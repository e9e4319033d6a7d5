-- ===== src/Packet/Outer/Wire.antt =====
-- What `river2_outer_build` puts on the wire.
use embed_beetroot_hw_2_7_pr.Prelude.{
  ℕ, ◌+◌, ◌*◌, ◌/◌, ◌%◌, ◌^◌, ◌<◌, ◌≤◌, ◌≡◌, refl, sym, ap, ◌∙◌, arith, Bool-cases, inl, inr, ltb,
  List, ◌∷◌, ◌++◌, length, length-drop, drop, drop-drop, append_assoc, IsBytes, if◌then◌else◌,
  bit_and,
}
use embed_beetroot_hw_2_7_pr.Prelude.Bits.{bit_and_byte}
use embed_beetroot_hw_2_7_pr.Crc.{crc16}
use embed_beetroot_hw_2_7_pr.Packet.Append.{append_payload}
use embed_beetroot_hw_2_7_pr.Packet.Words.{le16, wr_u16le}
use embed_beetroot_hw_2_7_pr.Packet.Outer.{write_wrapper, write_wrapped, river2_outer_build}

-- The six bytes in front of a payload of `n` bytes.
abbrev pub wrapper_of : ℕ → ℕ → List ℕ
wrapper_of frame_type n = 0x5A ∷ 0x5A ∷ (frame_type * 16 % 256) ∷ 0x01 ∷ le16 (n + 2)

abbrev pub frame_of : ℕ → List ℕ → List ℕ
frame_of frame_type payload =
    let body = wrapper_of frame_type (length payload) ++ payload in body ++ le16 (crc16 body)

pub wrapper_of-IsBytes : (frame_type n : ℕ) → n + 2 < 65536 → IsBytes (wrapper_of frame_type n)
wrapper_of-IsBytes frame_type n h = omega arith

write_wrapper_lem :
    (frame_type n : ℕ) (out : List ℕ)
    → n + 2 < 65536
    → 6 ≤ length out
    → write_wrapper frame_type n out ≡ wrapper_of frame_type n ++ drop 6 out
unfolding write_wrapper wr_u16le
write_wrapper_lem frame_type n (o0 ∷ o1 ∷ o2 ∷ o3 ∷ o4 ∷ o5 ∷ rest) hn h =
    let low : bit_and ((n + 2) % 2 ^ 16) 0xFF % 2 ^ 8 ≡ (n + 2) % 256 =
      rw (bit_and_byte ((n + 2) % 2 ^ 16)) (omega arith) in
    let high : (n + 2) % 2 ^ 16 / 2 ^ 8 % 2 ^ 8 ≡ (n + 2) / 256 = omega arith in rw (low, high) refl
write_wrapper_lem frame_type n out hn h = absurd (omega arith)

written :
    (frame_type : ℕ) (payload out : List ℕ)
    → IsBytes payload
    → length payload + 2 < 65536
    → 8 + length payload ≤ length out
    → write_wrapped payload (write_wrapper frame_type (length payload) out)
      ≡ frame_of frame_type payload ++ drop (8 + length payload) out
unfolding write_wrapped
written frame_type payload out hp hn fits =
    let header = wrapper_of frame_type (length payload) in
    let behind : 6 + (length payload + 2) ≡ 8 + length payload = omega arith in
    ap (write_wrapped payload) (write_wrapper_lem frame_type (length payload) out hn (omega arith))
    ∙ append_payload 6 header payload (drop 6 out) refl (omega (arith, length-drop 6 out))
        (wrapper_of-IsBytes frame_type (length payload) hn) hp
    ∙ (rw (drop-drop (length payload + 2) 6 out, behind)
        (sym (
          append_assoc (header ++ payload) (le16 (crc16 (header ++ payload)))
            (drop (8 + length payload) out))))

-- Into a buffer of at least `out_cap` bytes, with a payload of bytes whose length and CRC fit the
-- length field: too small a capacity gives 0 and leaves the buffer alone; otherwise the frame of
-- the protocol's layout stands at the front, its length is returned, and every byte behind it is
-- as it was.
pub river2_outer_build_lem :
    (frame_type : ℕ) (payload out : List ℕ) (out_cap : ℕ)
    → IsBytes payload
    → length payload + 2 < 65536
    → out_cap ≤ length out
    → river2_outer_build frame_type payload out out_cap ≡ (
        if ltb out_cap (8 + length payload)
        then (0, out)
        else (8 + length payload, frame_of frame_type payload ++ drop (8 + length payload) out))
unfolding river2_outer_build
river2_outer_build_lem frame_type payload out out_cap hp hn cap =
    let total : (8 + length payload) % 2 ^ 32 ≡ 8 + length payload = omega arith in
    elim (Bool-cases (ltb out_cap (8 + length payload))) [
      | inl small ↦ rw (total, small) refl
      | inr fits ↦
          rw (total, fits)
            (ap (λ buffer. (8 + length payload, buffer))
              (written frame_type payload out hp hn (ground arith)))
    ]
