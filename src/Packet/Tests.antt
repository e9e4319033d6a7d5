-- ===== src/Packet/Tests.antt =====
-- The theorems on the two packet layers and the reassembler, at concrete packets.
use embed_beetroot_hw_2_7_pr.Prelude.{
  ℕ, ◌+◌, ◌≡◌, ◌<◌, ◌↔◌, refl, sym, ap, ◌∙◌, arith, true, false, some, none, List, [], ◌∷◌, ◌++◌,
  length, take, drop, replicate, if◌then◌else◌,
}
use mathlib.Core.List.{flatten}
use embed_beetroot_hw_2_7_pr.Crc.{crc8, crc16}
use embed_beetroot_hw_2_7_pr.Packet.Inner.{InnerPacket, river2_inner_build, river2_inner_parse}
use embed_beetroot_hw_2_7_pr.Packet.Inner.Wire.{packet_of, app_bytes, river2_inner_build_lem}
use embed_beetroot_hw_2_7_pr.Packet.Inner.RoundTrip.{river2_inner_parse-packet_of}
use embed_beetroot_hw_2_7_pr.Packet.Inner.Layout.{
  IsLayout, river2_inner_parse-IsLayout, river2_inner_parse_damaged, river2_inner_parse-build,
}
use embed_beetroot_hw_2_7_pr.Packet.Outer.{river2_outer_build}
use embed_beetroot_hw_2_7_pr.Packet.Outer.Wire.{frame_of, river2_outer_build_lem}
use embed_beetroot_hw_2_7_pr.Packet.Reassembly.{
  FrameBuf, Frame, river2_framebuf_init, river2_framebuf_append, river2_framebuf_extract,
}
use embed_beetroot_hw_2_7_pr.Packet.Reassembly.Extract.{
  IsValid, Extracts, river2_framebuf_extract-Extracts, river2_framebuf_append_lem,
}
use embed_beetroot_hw_2_7_pr.Packet.Reassembly.Client.{seen, receive, receive-flatten}
use embed_beetroot_hw_2_7_pr.Packet.Reassembly.Frames.{
  Sent, IsSendable, on_air, receive-on_air, receive-river2_outer_build,
}

-- The command that switches the DC output on.
abbrev dc_on : InnerPacket
dc_on = record {
  src = 0x21;
  dst = 0x05;
  cmd_set = 0x20;
  cmd_id = 0x51;
  payload = 1 ∷ [];
  payload_len = 1;
}

abbrev dc_on_bytes : List ℕ
dc_on_bytes = packet_of app_bytes 0x21 0x05 0x20 0x51 (1 ∷ [])

dc_on_parses : river2_inner_parse dc_on_bytes ≡ some dc_on
dc_on_parses =
    river2_inner_parse-packet_of app_bytes 0x21 0x05 0x20 0x51 (1 ∷ []) refl (omega arith)
      (omega arith) (omega arith) (omega arith)

river2_inner_build_lem_example :
    river2_inner_build 0x21 0x05 0x20 0x51 (1 ∷ []) (replicate 20 7) 20
    ≡ (19, dc_on_bytes ++ 7 ∷ [])
river2_inner_build_lem_example =
    river2_inner_build_lem 0x21 0x05 0x20 0x51 (1 ∷ []) (replicate 20 7) 20 (omega arith)
      (omega arith) (omega arith) (omega arith)

river2_inner_parse-build_example :
    (let (total, out') = river2_inner_build 0x21 0x05 0x20 0x51 (1 ∷ []) (replicate 20 7) 20 in
      river2_inner_parse (take total out'))
    ≡ some dc_on
river2_inner_parse-build_example =
    river2_inner_parse-build 0x21 0x05 0x20 0x51 (1 ∷ []) (replicate 20 7) 20 (omega arith)
      (omega arith) (omega arith) (omega arith) (omega arith)

-- The same packet, byte by byte.
abbrev dc_on_wire : List ℕ
dc_on_wire =
    170 ∷ 2 ∷ 1 ∷ 0 ∷ 160 ∷ 13 ∷ 0 ∷ 0 ∷ 0 ∷ 0 ∷ 0 ∷ 0 ∷ 33 ∷ 5 ∷ 32 ∷ 81 ∷ 1 ∷ 50 ∷ 194 ∷ []

dc_on_bytes-wire : dc_on_bytes ≡ dc_on_wire
unfolding crc8 crc16
dc_on_bytes-wire = refl

dc_on_wire_parses : river2_inner_parse dc_on_wire ≡ some dc_on
dc_on_wire_parses = ap river2_inner_parse (sym dc_on_bytes-wire) ∙ dc_on_parses

river2_inner_parse-IsLayout_example :
    (river2_inner_parse dc_on_wire ≡ some dc_on) ↔ IsLayout dc_on_wire dc_on
river2_inner_parse-IsLayout_example = river2_inner_parse-IsLayout dc_on_wire dc_on (omega arith)

river2_inner_parse_damaged_example :
    river2_inner_parse (take 15 dc_on_wire ++ 80 ∷ 3 ∷ 50 ∷ 194 ∷ []) ≡ none
river2_inner_parse_damaged_example =
    river2_inner_parse_damaged (take 15 dc_on_wire) (50 ∷ 194 ∷ []) 81 1 80 3 dc_on (omega arith)
      (omega arith) (omega arith) dc_on_wire_parses (λ e. ground arith)

abbrev a_frame : Frame
a_frame = record { frame_type = 1; payload = 0x5A ∷ 0x5A ∷ 9 ∷ [] }

abbrev a_wire : List ℕ
a_wire = 90 ∷ 90 ∷ 16 ∷ 1 ∷ 5 ∷ 0 ∷ 90 ∷ 90 ∷ 9 ∷ 1 ∷ 69 ∷ []

frame_of-a_wire : frame_of 1 (0x5A ∷ 0x5A ∷ 9 ∷ []) ≡ a_wire
unfolding crc16
frame_of-a_wire = refl

river2_outer_build_lem_example :
    river2_outer_build 1 (0x5A ∷ 0x5A ∷ 9 ∷ []) (replicate 12 7) 12
    ≡ (11, frame_of 1 (0x5A ∷ 0x5A ∷ 9 ∷ []) ++ 7 ∷ [])
river2_outer_build_lem_example =
    river2_outer_build_lem 1 (0x5A ∷ 0x5A ∷ 9 ∷ []) (replicate 12 7) 12 (omega arith) (omega arith)
      (omega arith)

-- A buffer with a byte that belongs to no frame, a frame, and the start of the next.
abbrev a_buffer : FrameBuf
a_buffer = record { bytes = 3 ∷ a_wire ++ 90 ∷ []; cap = 13; scratch = []; scratch_cap = 0 }

river2_framebuf_extract-Extracts_example : Extracts a_buffer (river2_framebuf_extract true a_buffer)
river2_framebuf_extract-Extracts_example =
    river2_framebuf_extract-Extracts true a_buffer (omega arith)

river2_framebuf_append_lem_example :
    let (done, fb') = river2_framebuf_append false a_buffer (1 ∷ 2 ∷ []) in
    IsValid fb'
    × (fb'.bytes ≡ (if done then a_buffer.bytes ++ 1 ∷ 2 ∷ [] else a_buffer.bytes))
    × ((done ≡ false) ↔ ((false ≡ false) × (13 < length a_buffer.bytes + 2)))
river2_framebuf_append_lem_example =
    river2_framebuf_append_lem false a_buffer (1 ∷ 2 ∷ []) (omega arith) (omega arith)

-- Two notifications that split a frame and the noise before it.
abbrev two_chunks : List (List ℕ)
two_chunks = (3 ∷ 4 ∷ take 4 a_wire) ∷ drop 4 a_wire ∷ []

receive-flatten_example :
    seen (receive two_chunks river2_framebuf_init)
    ≡ seen (receive (flatten two_chunks ∷ []) river2_framebuf_init)
receive-flatten_example = receive-flatten two_chunks

abbrev noisy : List Sent
noisy = record { noise = 3 ∷ 4 ∷ []; frame = a_frame } ∷ []

two_chunks-on_air : flatten two_chunks ≡ on_air noisy
unfolding crc16 flatten
two_chunks-on_air = refl

a_frame-IsSendable : IsSendable a_frame
a_frame-IsSendable = record {
  type_fits = omega arith;
  payload_bytes = omega arith;
  payload_fits = omega arith;
}

receive-on_air_example : seen (receive two_chunks river2_framebuf_init) ≡ (a_frame ∷ [], [])
receive-on_air_example =
    receive-on_air noisy two_chunks
      (((λ e. ground arith), ((λ e. ground arith), tt)), a_frame-IsSendable, tt) two_chunks-on_air

a_wire_built :
    let (total, out') = river2_outer_build 1 (0x5A ∷ 0x5A ∷ 9 ∷ []) (replicate 12 7) 12 in
    flatten (take 4 a_wire ∷ drop 4 a_wire ∷ []) ≡ take total out'
unfolding flatten
a_wire_built = sym frame_of-a_wire ∙ sym (ap (λ r. take r.0 r.1) river2_outer_build_lem_example)

receive-river2_outer_build_example :
    seen (receive (take 4 a_wire ∷ drop 4 a_wire ∷ []) river2_framebuf_init) ≡ (a_frame ∷ [], [])
receive-river2_outer_build_example =
    receive-river2_outer_build a_frame (replicate 12 7) 12 (take 4 a_wire ∷ drop 4 a_wire ∷ [])
      a_frame-IsSendable (omega arith) (omega arith) a_wire_built
