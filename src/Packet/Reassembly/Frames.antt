-- ===== src/Packet/Reassembly/Frames.antt =====
-- Sender and receiver together: what `river2_outer_build` wrapped, the reassembler takes out, from
-- any split of the stream, and with noise between the frames.
use embed_beetroot_hw_2_7_pr.Prelude.{
  ℕ, ◌+◌, ◌*◌, ◌/◌, ◌%◌, ◌^◌, ◌<◌, ◌≤◌, ◌≡◌, ◌≢◌, refl, sym, ap, ◌∙◌, arith, false, some, List, [],
  ◌∷◌, ◌++◌, ltb, length, length-append, drop, take, append_assoc, append-nil, take-append_length,
  drop-append_length, IsBytes, IsBytes-append, get_or, subst,
}
use mathlib.Core.List.{flatten}
use embed_beetroot_hw_2_7_pr.Crc.{crc16}
use embed_beetroot_hw_2_7_pr.Crc.Reference.{crc16-lt}
use embed_beetroot_hw_2_7_pr.Packet.Words.{le16, rd_u16le, rd_u16le-append}
use embed_beetroot_hw_2_7_pr.Packet.Outer.{river2_outer_build}
use embed_beetroot_hw_2_7_pr.Packet.Outer.Wire.{
  wrapper_of, frame_of, wrapper_of-IsBytes, river2_outer_build_lem,
}
use embed_beetroot_hw_2_7_pr.Packet.Reassembly.{
  Frame, find_prefix, found, scan_frame, scan, river2_framebuf_init,
}
use embed_beetroot_hw_2_7_pr.Packet.Reassembly.Rounds.{Round, good, Round-scan_frame}
use embed_beetroot_hw_2_7_pr.Packet.Reassembly.Prefix.{scan-prefix, scan-nil}
use embed_beetroot_hw_2_7_pr.Packet.Reassembly.Chunks.{
  prepend, frames_in, frames_in-wait, frames_in-found,
}
use embed_beetroot_hw_2_7_pr.Packet.Reassembly.Client.{seen, receive, receive-frames_in}

-- A frame that the receiver's limit of 4096 admits: the type has the four bits of its field.
pub record IsSendable (f : Frame) : Type 0 where
  pub type_fits : f.frame_type < 16
  pub payload_bytes : IsBytes f.payload
  pub payload_fits : length f.payload ≤ 4094

abbrev pub wire : Frame → List ℕ
wire f = frame_of f.frame_type f.payload

pub length-frame_of : (t : ℕ) (payload : List ℕ) → length (frame_of t payload) ≡ 8 + length payload
length-frame_of t payload = omega (
  arith,
  length-append (wrapper_of t (length payload) ++ payload)
      (le16 (crc16 (wrapper_of t (length payload) ++ payload))),
  length-append (wrapper_of t (length payload)) payload,
)

-- A frame at the front is found, whatever follows.
wire-Round :
    (f : Frame) (rest : List ℕ)
    → IsSendable f
    → Round (wire f ++ rest) (found f (wire f ++ rest) (8 + length f.payload))
wire-Round f rest ok =
    let n = length f.payload in
    let body = wrapper_of f.frame_type n ++ f.payload in
    let crc = crc16 body in
    let bytes = wire f ++ rest in
    let split : bytes ≡ body ++ (le16 crc ++ rest) = append_assoc body (le16 crc) rest in
    let at : 6 + n ≡ length body =
      omega (arith, length-append (wrapper_of f.frame_type n) f.payload) in
    let small : crc < 65536 = crc16-lt body (
      IsBytes-append (wrapper_of f.frame_type n) f.payload
        (wrapper_of-IsBytes f.frame_type n (omega arith)) ok.payload_bytes) in
    let field : rd_u16le bytes 4 ≡ n + 2 =
      rd_u16le-append (0x5A ∷ 0x5A ∷ (f.frame_type * 16 % 256) ∷ 0x01 ∷ []) _ 4 ((n + 2) % 256)
        ((n + 2) / 256) refl (omega arith) (omega arith)
      ∙ (omega arith) in
    let sum_there : rd_u16le bytes (6 + n) ≡ crc =
      ap (λ l. rd_u16le l (6 + n)) split
      ∙ rd_u16le-append body rest (6 + n) (crc % 256) (crc / 256) at (omega arith) (omega arith)
      ∙ (omega arith) in
    let front : take (6 + n) bytes ≡ body =
      ap (take (6 + n)) split ∙ take-append_length (6 + n) body (le16 crc ++ rest) at in
    let type_back : get_or bytes 2 0 / 2 ^ 4 % 2 ^ 8 ≡ f.frame_type = omega arith in
    let payload_back : take n (drop 6 bytes) ≡ f.payload =
      ap (take n) (append_assoc f.payload (le16 crc) rest)
      ∙ take-append_length n f.payload (le16 crc ++ rest) refl in
    let frame_back : (let g : Frame = record {
      frame_type = get_or bytes 2 0 / 2 ^ 4 % 2 ^ 8;
      payload = take n (drop 6 bytes);
    } in
          g)
        ≡ f =
      λ i. record { frame_type = type_back i; payload = payload_back i } in
    subst (λ g. Round bytes (found g bytes (8 + n))) frame_back
      (good n field (omega arith)
        (omega (arith, length-append (wire f) rest, length-frame_of f.frame_type f.payload))
        (sum_there ∙ sym (ap crc16 front)))

-- Bytes that can hold no prefix.
abbrev pub IsNoise : List ℕ → Type 0
IsNoise [] = Unit
IsNoise (x ∷ xs) = (x ≢ 0x5A) × IsNoise xs

find_prefix-noise :
    (noise rest : List ℕ)
    → IsNoise noise
    → find_prefix (noise ++ 0x5A ∷ 0x5A ∷ rest) ≡ some (length noise)
unfolding find_prefix
find_prefix-noise [] rest h = refl
find_prefix-noise (x ∷ []) rest h = ground arith
find_prefix-noise (x ∷ y ∷ noise) rest h = ground (arith, find_prefix-noise (y ∷ noise) rest h.1)

-- Some noise and then a frame.
pub record Sent : Type 0 where
  pub noise : List ℕ
  pub frame : Frame

abbrev pub on_air : List Sent → List ℕ
on_air [] = []
on_air (s ∷ sent) = s.noise ++ (wire s.frame ++ on_air sent)

abbrev pub AreSendable : List Sent → Type 0
AreSendable [] = Unit
AreSendable (s ∷ sent) = IsNoise s.noise × IsSendable s.frame × AreSendable sent

abbrev pub frames_of : List Sent → List Frame
frames_of [] = []
frames_of (s ∷ sent) = s.frame ∷ frames_of sent

scan_sent :
    (s : Sent) (rest : List ℕ)
    → IsNoise s.noise
    → IsSendable s.frame
    → scan (s.noise ++ (wire s.frame ++ rest))
      ≡ found s.frame (wire s.frame ++ rest) (8 + length s.frame.payload)
scan_sent s rest hn hs =
    scan-prefix (s.noise ++ (wire s.frame ++ rest)) (length s.noise)
      (find_prefix-noise s.noise _ hn)
    ∙ ap scan_frame (drop-append_length (length s.noise) s.noise (wire s.frame ++ rest) refl)
    ∙ Round-scan_frame (wire s.frame ++ rest) (wire-Round s.frame rest hs)

pub frames_in-on_air :
    (sent : List Sent) → AreSendable sent → frames_in (on_air sent) ≡ (frames_of sent, [])
frames_in-on_air [] h = frames_in-wait [] [] scan-nil
frames_in-on_air (s ∷ sent) h =
    frames_in-found (on_air (s ∷ sent)) s.frame (wire s.frame ++ on_air sent)
      (8 + length s.frame.payload) (scan_sent s (on_air sent) h.0 h.1)
    ∙ ap (λ l. prepend (s.frame ∷ []) (frames_in l))
        (drop-append_length (8 + length s.frame.payload) (wire s.frame) (on_air sent)
          (sym (length-frame_of s.frame.frame_type s.frame.payload)))
    ∙ ap (prepend (s.frame ∷ [])) (frames_in-on_air sent h.2)

-- Frames with noise before each that holds no 0x5A, split into notifications in any way, are
-- received whole and in order, and no byte is left over.
pub receive-on_air :
    (sent : List Sent) (chunks : List (List ℕ))
    → AreSendable sent
    → flatten chunks ≡ on_air sent
    → seen (receive chunks river2_framebuf_init) ≡ (frames_of sent, [])
receive-on_air sent chunks h e = receive-frames_in chunks ∙ ap frames_in e ∙ frames_in-on_air sent h

-- A sendable frame, built into any buffer with room for it, is on the wire what the receiver
-- takes out: the returned bytes, split in any way, give back the frame's type and payload.
pub receive-river2_outer_build :
    (f : Frame) (out : List ℕ) (out_cap : ℕ) (chunks : List (List ℕ))
    → IsSendable f
    → 8 + length f.payload ≤ out_cap
    → out_cap ≤ length out
    → (let (total, out') = river2_outer_build f.frame_type f.payload out out_cap in
        flatten chunks ≡ take total out')
    → seen (receive chunks river2_framebuf_init) ≡ (f ∷ [], [])
receive-river2_outer_build f out out_cap chunks ok room cap e =
    let n = length f.payload in
    let enough : ltb out_cap (8 + n) ≡ false = ground arith in
    let built : river2_outer_build f.frame_type f.payload out out_cap
        ≡ (8 + n, wire f ++ drop (8 + n) out) =
      river2_outer_build_lem f.frame_type f.payload out out_cap ok.payload_bytes (omega arith) cap
      ∙ (rw enough refl) in
    let stream : flatten chunks ≡ wire f ++ [] =
      e
      ∙ ap (λ r. take r.0 r.1) built
      ∙ take-append_length (8 + n) (wire f) (drop (8 + n) out)
          (sym (length-frame_of f.frame_type f.payload))
      ∙ sym (append-nil (wire f)) in
    receive-on_air (record { noise = []; frame = f } ∷ []) chunks (tt, ok, tt) stream
