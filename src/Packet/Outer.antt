-- ===== src/Packet/Outer.antt =====
-- `river2_outer_build`: the wrapper that crosses the BLE characteristics.
pub mod Wire
use embed_beetroot_hw_2_7_pr.Prelude.{
  ℕ, ◌+◌, Bool, true, false, List, ltb, if◌then◌else◌, length, set, take, memcpy, u8, u16, u32,
  ◌<<<◌,
}
use embed_beetroot_hw_2_7_pr.Crc.{crc16}
use embed_beetroot_hw_2_7_pr.Packet.Words.{wr_u16le}

abbrev pub outer_overhead : ℕ
outer_overhead = 8

-- The stores to `out[0]` up to `out[5]`.
pub write_wrapper : ℕ → ℕ → List ℕ → List ℕ
write_wrapper frame_type payload_len out0 =
    let out1 = set out0 0 0x5A in
    let out2 = set out1 1 0x5A in
    let out3 = set out2 2 (u8 (frame_type <<< 4)) in
    let out4 = set out3 3 0x01 in wr_u16le out4 4 (u16 (payload_len + 2))

-- The rest of the function: the payload, and the CRC16 over all that stands before it.
pub write_wrapped : List ℕ → List ℕ → List ℕ
write_wrapped payload out =
    let payload_len = length payload in
    let body = if ltb 0 payload_len then memcpy out 6 payload else out in
    wr_u16le body (6 + payload_len) (crc16 (take (6 + payload_len) body))

-- The returned length and the buffer `out`, whose first `out_cap` bytes may be written.
pub river2_outer_build : (frame_type : ℕ) (payload out : List ℕ) (out_cap : ℕ) → ℕ × List ℕ
unfolding write_wrapper write_wrapped
river2_outer_build frame_type payload out out_cap =
    let total = u32 (outer_overhead + length payload) in
    if ltb out_cap total
    then (0, out)
    else (total, write_wrapped payload (write_wrapper frame_type (length payload) out))
