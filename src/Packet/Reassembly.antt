-- ===== src/Packet/Reassembly.antt =====
-- `river2_framebuf_t` and its operations: the reassembler of the outer wrapper. The list `bytes`
-- holds the first `len` bytes of the C array `data`; what stands behind them is never read.
-- Whether a `realloc` succeeds is an argument of the operation that may call it.
pub mod Rounds
pub mod Search
pub mod Prefix
pub mod Extract
pub mod Shrinks
pub mod Chunks
pub mod Client
pub mod Frames
use embed_beetroot_hw_2_7_pr.Prelude.{
  ℕ, zero, suc, ◌+◌, ◌-◌, Bool, true, false, not, ◌&&◌, ◌||◌, Option, none, some, List, [], ◌∷◌,
  ◌++◌, ltb, ◌==◌, if◌then◌else◌, length, get_or, take, drop, u8, u32, ◌>>>◌,
}
use mathlib.Core.Option
use embed_beetroot_hw_2_7_pr.Crc.{crc16}
use embed_beetroot_hw_2_7_pr.Packet.Words.{rd_u16le}

pub record FrameBuf : Type 0 where
  pub bytes : List ℕ
  pub cap : ℕ
  pub scratch : List ℕ
  pub scratch_cap : ℕ

-- A frame as the caller receives it: the type and the bytes that `payload` points to.
pub record Frame : Type 0 where
  pub frame_type : ℕ
  pub payload : List ℕ

unfoldable pub river2_framebuf_init : FrameBuf
river2_framebuf_init = record { bytes = []; cap = 0; scratch = []; scratch_cap = 0 }

-- Both arrays are freed, and the structure is cleared.
unfoldable pub river2_framebuf_free : FrameBuf → FrameBuf
unfolding river2_framebuf_init
river2_framebuf_free fb = river2_framebuf_init

-- `grown` says whether `realloc` returns memory.
unfoldable pub river2_framebuf_append : Bool → FrameBuf → List ℕ → Bool × FrameBuf
river2_framebuf_append grown fb new =
    if length new == 0
    then (true, fb)
    else let new_cap = u32 (length fb.bytes + length new) in
      if ltb fb.cap new_cap
      then if grown
        then (true, record fb { bytes = fb.bytes ++ new; cap = new_cap })
        else (false, fb)
      else (true, record fb { bytes = fb.bytes ++ new })

abbrev pub framebuf_consume : List ℕ → ℕ → List ℕ
framebuf_consume bytes n = drop n bytes

-- The first position of the prefix 0x5A5A.
unfoldable pub find_prefix : List ℕ → Option ℕ
find_prefix [] = none
find_prefix (x ∷ []) = none
find_prefix (x ∷ y ∷ rest) =
    let later = Option.map suc (find_prefix (y ∷ rest)) in
    if x == 0x5A && y == 0x5A then some 0 else later

-- One round of the loop in `river2_framebuf_extract`, up to the copy of the payload: the bytes
-- left where it returns false or goes round again, or a checked frame at the front of the bytes
-- and the place `data_end` where it ends.
pub data Scan : Type 0 where
  wait : (left : List ℕ) → Scan
  again : (left : List ℕ) → Scan
  found : (frame : Frame) (left : List ℕ) (data_end : ℕ) → Scan

-- The bytes begin with the prefix.
unfoldable pub scan_frame : List ℕ → Scan
scan_frame bytes =
    if ltb (length bytes) 6
    then wait bytes
    else let payload_field = rd_u16le bytes 4 in
      if ltb payload_field 2 || ltb 4096 payload_field
      then again (framebuf_consume bytes 2)
      else let data_end = 6 + payload_field in
        if ltb (length bytes) data_end
        then wait bytes
        else if not (rd_u16le bytes (data_end - 2) == crc16 (take (data_end - 2) bytes))
        then again (framebuf_consume bytes 2)
        else found
            (record {
              frame_type = u8 (get_or bytes 2 0 >>> 4);
              payload = take (payload_field - 2) (drop 6 bytes);
            })
            bytes data_end

unfoldable pub scan : List ℕ → Scan
scan bytes = if ltb (length bytes) 2 then wait bytes else elim (find_prefix bytes) [
  | none ↦ wait (framebuf_consume bytes (length bytes - 1))
  | some start ↦ scan_frame (if ltb 0 start then framebuf_consume bytes start else bytes)
]

-- What a call returns. `stuck` is no result of the source: the fuel of the model ran out.
pub data Outcome : Type 0 where
  extracted : Frame → Outcome
  absent : Outcome
  stuck : Outcome

-- The copy to `scratch`, for which the array may have to grow, and the last `framebuf_consume`.
unfoldable pub deliver : Bool → FrameBuf → Frame → ℕ → Outcome × FrameBuf
deliver grown fb frame data_end =
    let payload_len = length frame.payload in
    let rest = framebuf_consume fb.bytes data_end in
    if ltb 0 payload_len
    then if ltb fb.scratch_cap payload_len
      then if grown
        then (
          extracted frame,
          record fb { bytes = rest; scratch = frame.payload; scratch_cap = payload_len },
        )
        else (absent, fb)
      else (extracted frame, record fb { bytes = rest; scratch = frame.payload })
    else (extracted frame, record fb { bytes = rest })

unfoldable pub extract_loop : ℕ → Bool → FrameBuf → Outcome × FrameBuf
extract_loop zero grown fb = (stuck, fb)
extract_loop (suc fuel) grown fb = elim (scan fb.bytes) [
  | wait left ↦ (absent, record fb { bytes = left })
  | again left ↦ extract_loop fuel grown (record fb { bytes = left })
  | found frame left data_end ↦ deliver grown (record fb { bytes = left }) frame data_end
]

-- Each round that goes on drops two bytes, so a round for each byte is enough.
unfoldable pub river2_framebuf_extract : Bool → FrameBuf → Outcome × FrameBuf
river2_framebuf_extract grown fb = extract_loop (suc (length fb.bytes)) grown fb
