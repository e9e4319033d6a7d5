-- ===== src/Packet/Inner/Wire.antt =====
-- What `river2_inner_build` puts on the wire: the layout of the protocol, written down as a list.
use embed_beetroot_hw_2_7_pr.Prelude.{
  ℕ, ◌+◌, ◌/◌, ◌%◌, ◌^◌, ◌<◌, ◌≤◌, ◌≡◌, refl, sym, ap, ◌∙◌, arith, Bool-cases, inl, inr, ltb, List,
  [], ◌∷◌, ◌++◌, length, length-append, length-drop, drop, append_assoc, drop-drop, IsBytes,
  IsBytes-append, if◌then◌else◌, bit_and,
}
use embed_beetroot_hw_2_7_pr.Prelude.Bits.{bit_and_byte}
use embed_beetroot_hw_2_7_pr.Crc.{crc8, crc16}
use embed_beetroot_hw_2_7_pr.Crc.Reference.{crc8-lt, crc16-lt}
use embed_beetroot_hw_2_7_pr.Packet.Append.{append_payload}
use embed_beetroot_hw_2_7_pr.Packet.Words.{le16, wr_u16le}
use embed_beetroot_hw_2_7_pr.Packet.Inner.{write_header, write_payload, river2_inner_build}

-- Bytes 0 to 3: prefix, version and payload length.
abbrev start_of : ℕ → List ℕ
start_of payload_len = 0xAA ∷ 0x02 ∷ le16 payload_len

-- A header with given bytes at 5 to 11, which no receiver reads.
abbrev pub header_of : (unread : List ℕ) (src dst cmd_set cmd_id payload_len : ℕ) → List ℕ
header_of unread src dst cmd_set cmd_id payload_len =
    start_of payload_len
    ++ (crc8 (start_of payload_len) ∷ (unread ++ src ∷ dst ∷ cmd_set ∷ cmd_id ∷ []))

-- A whole packet: the header, the payload, and the CRC16 of both.
abbrev pub packet_of : (unread : List ℕ) (src dst cmd_set cmd_id : ℕ) (payload : List ℕ) → List ℕ
packet_of unread src dst cmd_set cmd_id payload =
    let body = header_of unread src dst cmd_set cmd_id (length payload) ++ payload in
    body ++ le16 (crc16 body)

-- Product id, a zero sequence number and two zero bytes: what the application sends.
abbrev pub app_bytes : List ℕ
app_bytes = 0x0D ∷ 0 ∷ 0 ∷ 0 ∷ 0 ∷ 0 ∷ 0 ∷ []

write_header_lem :
    (src dst cmd_set cmd_id n : ℕ) (out : List ℕ)
    → n < 65536
    → 16 ≤ length out
    → write_header src dst cmd_set cmd_id n out
      ≡ header_of app_bytes src dst cmd_set cmd_id n ++ drop 16 out
unfolding write_header wr_u16le
write_header_lem src dst cmd_set cmd_id n
      (o0 ∷ o1 ∷ o2 ∷ o3 ∷ o4 ∷ o5 ∷ o6 ∷ o7 ∷ o8 ∷ o9 ∷ o10 ∷ o11 ∷ o12 ∷ o13 ∷ o14 ∷ o15 ∷ rest)
      hn h =
    let low : bit_and (n % 2 ^ 16) 0xFF % 2 ^ 8 ≡ n % 256 =
      rw (bit_and_byte (n % 2 ^ 16)) (omega arith) in
    let high : n % 2 ^ 16 / 2 ^ 8 % 2 ^ 8 ≡ n / 256 = omega arith in rw (low, high) refl
write_header_lem src dst cmd_set cmd_id n out hn h = absurd (omega arith)

-- The payload follows the header, and the CRC16 of both follows that.
write_payload_lem :
    (header payload rest : List ℕ)
    → length header ≡ 16
    → length payload + 2 ≤ length rest
    → IsBytes header
    → IsBytes payload
    → write_payload payload (header ++ rest)
      ≡ (header ++ payload) ++ (le16 (crc16 (header ++ payload)) ++ drop (length payload + 2) rest)
unfolding write_payload
write_payload_lem header payload rest = append_payload 16 header payload rest

-- The four addressing arguments are bytes.
abbrev pub AreBytes : ℕ → ℕ → ℕ → ℕ → Type 0
AreBytes src dst cmd_set cmd_id = IsBytes (src ∷ dst ∷ cmd_set ∷ cmd_id ∷ [])

start_of-IsBytes : (n : ℕ) → n < 65536 → IsBytes (start_of n)
start_of-IsBytes n hn = omega arith

pub header_of-IsBytes :
    (unread : List ℕ) (src dst cmd_set cmd_id n : ℕ)
    → IsBytes unread
    → AreBytes src dst cmd_set cmd_id
    → n < 65536
    → IsBytes (header_of unread src dst cmd_set cmd_id n)
header_of-IsBytes unread src dst cmd_set cmd_id n hu hs hn =
    let start = start_of-IsBytes n hn in
    IsBytes-append (start_of n) (crc8 (start_of n) ∷ (unread ++ src ∷ dst ∷ cmd_set ∷ cmd_id ∷ []))
      start (crc8-lt (start_of n) start, IsBytes-append unread _ hu hs)

written :
    (src dst cmd_set cmd_id : ℕ) (payload out : List ℕ)
    → AreBytes src dst cmd_set cmd_id
    → IsBytes payload
    → length payload < 65536
    → 18 + length payload ≤ length out
    → write_payload payload (write_header src dst cmd_set cmd_id (length payload) out)
      ≡ packet_of app_bytes src dst cmd_set cmd_id payload ++ drop (18 + length payload) out
written src dst cmd_set cmd_id payload out hs hp hn fits =
    let header = header_of app_bytes src dst cmd_set cmd_id (length payload) in
    let header_bytes =
      header_of-IsBytes app_bytes src dst cmd_set cmd_id (length payload) (omega arith) hs hn in
    let behind : 16 + (length payload + 2) ≡ 18 + length payload = omega arith in
    ap (write_payload payload)
      (write_header_lem src dst cmd_set cmd_id (length payload) out hn (omega arith))
    ∙ write_payload_lem header payload (drop 16 out) refl (omega (arith, length-drop 16 out))
        header_bytes hp
    ∙ (rw (drop-drop (length payload + 2) 16 out, behind)
        (sym (
          append_assoc (header ++ payload) (le16 (crc16 (header ++ payload)))
            (drop (18 + length payload) out))))

-- Into a buffer of at least `out_cap` bytes, with byte-sized addresses, a payload of bytes and a
-- length that fits its field: too small a capacity gives 0 and leaves the buffer alone; otherwise
-- the packet of the protocol's layout stands at the front, its length is returned, and every
-- byte behind it is as it was.
pub river2_inner_build_lem :
    (src dst cmd_set cmd_id : ℕ) (payload out : List ℕ) (out_cap : ℕ)
    → AreBytes src dst cmd_set cmd_id
    → IsBytes payload
    → length payload < 65536
    → out_cap ≤ length out
    → river2_inner_build src dst cmd_set cmd_id payload out out_cap ≡ (
        if ltb out_cap (18 + length payload) then (0, out) else (
          18 + length payload,
          packet_of app_bytes src dst cmd_set cmd_id payload ++ drop (18 + length payload) out,
        ))
unfolding river2_inner_build
river2_inner_build_lem src dst cmd_set cmd_id payload out out_cap hs hp hn cap =
    let total : (18 + length payload) % 2 ^ 32 ≡ 18 + length payload = omega arith in
    elim (Bool-cases (ltb out_cap (18 + length payload))) [
      | inl small ↦ rw (total, small) refl
      | inr fits ↦
          rw (total, fits)
            (ap (λ buffer. (18 + length payload, buffer))
              (written src dst cmd_set cmd_id payload out hs hp hn (ground arith)))
    ]

pub length-packet_of :
    (src dst cmd_set cmd_id : ℕ) (payload : List ℕ)
    → length (packet_of app_bytes src dst cmd_set cmd_id payload) ≡ 18 + length payload
length-packet_of src dst cmd_set cmd_id payload =
    let header = header_of app_bytes src dst cmd_set cmd_id (length payload) in
    omega (
      arith,
      length-append (header ++ payload) (le16 (crc16 (header ++ payload))),
      length-append header payload,
    )

pub packet_of-IsBytes :
    (src dst cmd_set cmd_id : ℕ) (payload : List ℕ)
    → AreBytes src dst cmd_set cmd_id
    → IsBytes payload
    → length payload < 65536
    → IsBytes (packet_of app_bytes src dst cmd_set cmd_id payload)
packet_of-IsBytes src dst cmd_set cmd_id payload hs hp hn =
    let header = header_of app_bytes src dst cmd_set cmd_id (length payload) in
    let body =
      IsBytes-append header payload
        (header_of-IsBytes app_bytes src dst cmd_set cmd_id (length payload) (omega arith) hs hn)
        hp in
    let small = crc16-lt (header ++ payload) body in
    IsBytes-append (header ++ payload) (le16 (crc16 (header ++ payload))) body (omega arith)
