-- ===== src/Packet/Inner.antt =====
-- `river2_inner_build` and `river2_inner_parse`: the inner packet of wire version 2.
pub mod Wire
pub mod Parse
pub mod RoundTrip
pub mod Layout
use embed_beetroot_hw_2_7_pr.Prelude.{
  ℕ, ◌+◌, ◌-◌, ◌<◌, Bool, true, false, not, ◌||◌, Option, none, some, List, [], ltb, ◌==◌,
  if◌then◌else◌, length, get_or, set, take, drop, replicate, memcpy, u16, u32,
}
use embed_beetroot_hw_2_7_pr.Crc.{crc8, crc16}
use embed_beetroot_hw_2_7_pr.Packet.Words.{rd_u16le, wr_u16le}

abbrev pub inner_prefix : ℕ
inner_prefix = 0xAA

abbrev pub inner_version : ℕ
inner_version = 0x02

abbrev pub inner_product : ℕ
inner_product = 0x0D

abbrev pub inner_header_len : ℕ
inner_header_len = 16

abbrev pub inner_overhead : ℕ
inner_overhead = inner_header_len + 2

-- `river2_inner_packet_t`: the payload is the slice that the C pointer and length stand for, and
-- empty where the pointer is NULL.
pub record InnerPacket : Type 0 where
  pub src : ℕ
  pub dst : ℕ
  pub cmd_set : ℕ
  pub cmd_id : ℕ
  pub payload : List ℕ
  pub payload_len : ℕ

-- The stores to `out[0]` up to `out[15]`, in the order of the source.
pub write_header : ℕ → ℕ → ℕ → ℕ → ℕ → List ℕ → List ℕ
write_header src dst cmd_set cmd_id payload_len out0 =
    let out1 = set out0 0 inner_prefix in
    let out2 = set out1 1 inner_version in
    let out3 = wr_u16le out2 2 (u16 payload_len) in
    let out4 = set out3 4 (crc8 (take 4 out3)) in
    let out5 = set out4 5 inner_product in
    let out6 = memcpy out5 6 (replicate 4 0) in
    let out7 = set out6 10 0x00 in
    let out8 = set out7 11 0x00 in
    let out9 = set out8 12 src in
    let out10 = set out9 13 dst in let out11 = set out10 14 cmd_set in set out11 15 cmd_id

-- The rest of the function: the payload, and the CRC16 over all that stands before it.
pub write_payload : List ℕ → List ℕ → List ℕ
write_payload payload out =
    let payload_len = length payload in
    let body = if ltb 0 payload_len then memcpy out inner_header_len payload else out in
    wr_u16le body (inner_header_len + payload_len)
      (crc16 (take (inner_header_len + payload_len) body))

-- The returned length and the buffer `out`, whose first `out_cap` bytes may be written.
pub river2_inner_build :
    (src dst cmd_set cmd_id : ℕ) (payload out : List ℕ) (out_cap : ℕ) → ℕ × List ℕ
unfolding write_header write_payload
river2_inner_build src dst cmd_set cmd_id payload out out_cap =
    let total = u32 (inner_overhead + length payload) in
    if ltb out_cap total
    then (0, out)
    else (total, write_payload payload (write_header src dst cmd_set cmd_id (length payload) out))

-- `none` is the result false. Each read is in range once the tests before it have passed.
pub river2_inner_parse : List ℕ → Option InnerPacket
river2_inner_parse bytes =
    let len = length bytes in
    let payload_len = rd_u16le bytes 2 in
    if ltb len inner_overhead
      || not (get_or bytes 0 0 == inner_prefix)
      || not (get_or bytes 1 0 == inner_version)
    then none
    else if not (len == inner_overhead + payload_len)
    then none
    else if not (crc8 (take 4 bytes) == get_or bytes 4 0)
    then none
    else if not (rd_u16le bytes (len - 2) == crc16 (take (len - 2) bytes))
    then none
    else some (record {
      src = get_or bytes 12 0;
      dst = get_or bytes 13 0;
      cmd_set = get_or bytes 14 0;
      cmd_id = get_or bytes 15 0;
      payload = if ltb 0 payload_len then take payload_len (drop inner_header_len bytes) else [];
      payload_len = payload_len;
    })
