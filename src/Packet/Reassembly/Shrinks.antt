-- ===== src/Packet/Reassembly/Shrinks.antt =====
-- How many bytes the operations of the reassembler take away or add, whatever the capacities are.
use embed_beetroot_hw_2_7_pr.Prelude.{
  ℕ, zero, suc, ◌+◌, ◌≤◌, ◌<◌, inl, inr, arith, Bool, Bool-cases, List, [], ltb, length,
  length-append, length-drop, drop,
}
use embed_beetroot_hw_2_7_pr.Packet.Reassembly.{
  FrameBuf, Frame, scan, Outcome, extracted, absent, stuck, deliver, river2_framebuf_append,
  river2_framebuf_extract,
}
use embed_beetroot_hw_2_7_pr.Packet.Reassembly.Prefix.{scan-found, scan_wait_length}
use embed_beetroot_hw_2_7_pr.Packet.Reassembly.Extract.{
  is_wait, is_again, is_found, scan_cases, again_shrinks, extract-wait, extract-again,
  extract-found,
}

-- What a call takes away, whatever the capacities are.
abbrev pub Shrinks : List ℕ → Outcome × FrameBuf → Type 0
Shrinks bytes (extracted frame, fb') = length fb'.bytes < length bytes
Shrinks bytes (absent, fb') = length fb'.bytes ≤ length bytes
Shrinks bytes (stuck, fb') = ⊥

deliver-Shrinks :
    (grown : Bool) (fb : FrameBuf) (frame : Frame) (n : ℕ)
    → 8 ≤ n
    → n ≤ length fb.bytes
    → Shrinks fb.bytes (deliver grown fb frame n)
unfolding deliver
deliver-Shrinks grown fb frame n low high =
    let shorter : length (drop n fb.bytes) < length fb.bytes =
      omega (arith, length-drop n fb.bytes) in
    elim (Bool-cases (ltb 0 (length frame.payload))) [
      | inr none_sent ↦ rw none_sent shorter
      | inl sent ↦ rw sent (elim (Bool-cases (ltb fb.scratch_cap (length frame.payload))) [
        | inr roomy ↦ rw roomy shorter
        | inl small ↦ rw small (elim (Bool-cases grown) [
          | inl yes_grown ↦ rw yes_grown shorter
          | inr not_grown ↦ rw not_grown (omega arith)
        ])
      ])
    ]

Shrinks-weaken :
    (xs ys : List ℕ) (r : Outcome × FrameBuf) → length xs ≤ length ys → Shrinks xs r → Shrinks ys r
Shrinks-weaken xs ys (extracted frame, fb') h x = omega arith
Shrinks-weaken xs ys (absent, fb') h x = omega arith
Shrinks-weaken xs ys (stuck, fb') h x = x

extract-Shrinks_below :
    (k : ℕ) (grown : Bool) (fb : FrameBuf)
    → length fb.bytes < k
    → Shrinks fb.bytes (river2_framebuf_extract grown fb)
extract-Shrinks_below zero grown fb h = absurd (omega arith)
extract-Shrinks_below (suc k) grown fb h = elim (scan_cases (scan fb.bytes)) [
  | is_wait left e ↦ rw (extract-wait grown fb left e) (scan_wait_length fb.bytes left e)
  | is_again left e ↦
      let shorter = again_shrinks fb.bytes left e in
      let fb' = record fb { bytes = left } in
      rw (extract-again grown fb left e) (
        Shrinks-weaken left fb.bytes (river2_framebuf_extract grown fb') (omega arith)
          (extract-Shrinks_below k grown fb' (omega arith)))
  | is_found frame left n e ↦
      let (_, shorter, low, high) = scan-found fb.bytes [] left frame n e in
      let fb' = record fb { bytes = left } in
      rw (extract-found grown fb frame left n e) (
        Shrinks-weaken left fb.bytes (deliver grown fb' frame n) shorter
          (deliver-Shrinks grown fb' frame n low high))
]

pub river2_framebuf_extract-Shrinks :
    (grown : Bool) (fb : FrameBuf) → Shrinks fb.bytes (river2_framebuf_extract grown fb)
river2_framebuf_extract-Shrinks grown fb =
    extract-Shrinks_below (suc (length fb.bytes)) grown fb (omega arith)

pub append_grows :
    (grown : Bool) (fb : FrameBuf) (new : List ℕ)
    → length (river2_framebuf_append grown fb new).1.bytes ≤ length fb.bytes + length new
unfolding river2_framebuf_append
append_grows grown fb new = ground (arith, length-append fb.bytes new)
