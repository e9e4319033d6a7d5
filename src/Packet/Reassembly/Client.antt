-- ===== src/Packet/Reassembly/Client.antt =====
-- The reassembler in use, with memory to be had: a client appends each notification and takes out
-- frames until there is none. What it receives does not depend on how the bytes were split.
use embed_beetroot_hw_2_7_pr.Prelude.{
  ℕ, zero, suc, ◌<◌, ◌≡◌, inl, inr, refl, sym, ap, ◌∙◌, arith, true, Bool-cases, List, [], ◌∷◌,
  ◌++◌, ltb, length, length-append, drop, append_assoc, append-nil, subst,
}
use mathlib.Core.List.{flatten}
use embed_beetroot_hw_2_7_pr.Packet.Reassembly.{
  FrameBuf, Frame, scan, Outcome, extracted, absent, stuck, deliver, river2_framebuf_init,
  river2_framebuf_extract, river2_framebuf_append,
}
use embed_beetroot_hw_2_7_pr.Packet.Reassembly.Prefix.{scan-nil}
use embed_beetroot_hw_2_7_pr.Packet.Reassembly.Extract.{
  is_wait, is_again, is_found, scan_cases, again_shrinks, extract-wait, extract-again,
  extract-found,
}
use embed_beetroot_hw_2_7_pr.Packet.Reassembly.Chunks.{
  prepend, then_more, frames_in, frames_in-wait, frames_in-again, frames_in-found, frames_in-append,
  found_shrinks,
}

-- The body of `while (river2_framebuf_extract(...))`, which keeps the frame.
unfoldable pub next_frame :
    (FrameBuf → List Frame × FrameBuf) → Outcome × FrameBuf → List Frame × FrameBuf
next_frame rest (extracted frame, fb) = (frame ∷ (rest fb).0, (rest fb).1)
next_frame rest (absent, fb) = ([], fb)
next_frame rest (stuck, fb) = ([], fb)

unfoldable pub drain : ℕ → FrameBuf → List Frame × FrameBuf
drain zero fb = ([], fb)
drain (suc fuel) fb = next_frame (drain fuel) (river2_framebuf_extract true fb)

-- Each frame takes eight bytes at least, so the fuel suffices.
unfoldable pub receive : List (List ℕ) → FrameBuf → List Frame × FrameBuf
receive [] fb = ([], fb)
receive (chunk ∷ chunks) fb =
    let fb1 = (river2_framebuf_append true fb chunk).1 in
    let (frames, fb2) = drain (suc (length fb1.bytes)) fb1 in
    let (later, fb3) = receive chunks fb2 in (frames ++ later, fb3)

-- One call takes the first frame, or finds that there is none.
abbrev pub Takes : List ℕ → Outcome × FrameBuf → Type 0
Takes bytes (extracted frame, fb') =
    (frames_in bytes ≡ prepend (frame ∷ []) (frames_in fb'.bytes))
    × (length fb'.bytes < length bytes)
Takes bytes (absent, fb') = frames_in bytes ≡ ([], fb'.bytes)
Takes bytes (stuck, fb') = ⊥

deliver-Takes :
    (fb : FrameBuf) (bytes : List ℕ) (frame : Frame) (n : ℕ)
    → frames_in bytes ≡ prepend (frame ∷ []) (frames_in (drop n fb.bytes))
    → length (drop n fb.bytes) < length bytes
    → Takes bytes (deliver true fb frame n)
unfolding deliver
deliver-Takes fb bytes frame n e h = elim (Bool-cases (ltb 0 (length frame.payload))) [
  | inr none_sent ↦ rw none_sent (e, h)
  | inl sent ↦ rw sent (elim (Bool-cases (ltb fb.scratch_cap (length frame.payload))) [
    | inr roomy ↦ rw roomy (e, h)
    | inl small ↦ rw small (e, h)
  ])
]

Takes-again :
    (bytes left : List ℕ) (r : Outcome × FrameBuf)
    → frames_in bytes ≡ frames_in left
    → length left < length bytes
    → Takes left r
    → Takes bytes r
Takes-again bytes left (extracted frame, fb') e h t = (e ∙ t.0, omega arith)
Takes-again bytes left (absent, fb') e h t = e ∙ t
Takes-again bytes left (stuck, fb') e h t = t

pub extract-Takes :
    (k : ℕ) (fb : FrameBuf) → length fb.bytes < k → Takes fb.bytes (river2_framebuf_extract true fb)
extract-Takes zero fb h = absurd (omega arith)
extract-Takes (suc k) fb h = elim (scan_cases (scan fb.bytes)) [
  | is_wait left e ↦ rw (extract-wait true fb left e) (frames_in-wait fb.bytes left e)
  | is_again left e ↦
      let shorter = again_shrinks fb.bytes left e in
      let fb' = record fb { bytes = left } in
      rw (extract-again true fb left e) (
        Takes-again fb.bytes left (river2_framebuf_extract true fb')
          (frames_in-again fb.bytes left e) shorter (extract-Takes k fb' (omega arith)))
  | is_found frame left n e ↦
      let fb' = record fb { bytes = left } in
      rw (extract-found true fb frame left n e) (
        deliver-Takes fb' fb.bytes frame n (frames_in-found fb.bytes frame left n e)
          (found_shrinks fb.bytes left frame n e))
]

-- The frames and the bytes left, of a client's result.
abbrev pub seen : List Frame × FrameBuf → List Frame × List ℕ
seen (frames, fb) = (frames, fb.bytes)

next_frame-Takes :
    (bytes : List ℕ) (rest : FrameBuf → List Frame × FrameBuf) (r : Outcome × FrameBuf)
    → Takes bytes r
    → ((fb : FrameBuf) → length fb.bytes < length bytes → seen (rest fb) ≡ frames_in fb.bytes)
    → seen (next_frame rest r) ≡ frames_in bytes
unfolding next_frame
next_frame-Takes bytes rest (extracted frame, fb) t ih =
    ap (prepend (frame ∷ [])) (ih fb t.1) ∙ sym t.0
next_frame-Takes bytes rest (absent, fb) t ih = sym t
next_frame-Takes bytes rest (stuck, fb) t ih = absurd t

drain-frames_in :
    (fuel : ℕ) (fb : FrameBuf) → length fb.bytes < fuel → seen (drain fuel fb) ≡ frames_in fb.bytes
unfolding drain
drain-frames_in zero fb h = absurd (omega arith)
drain-frames_in (suc fuel) fb h =
    next_frame-Takes fb.bytes (drain fuel) (river2_framebuf_extract true fb)
      (extract-Takes (suc (length fb.bytes)) fb (omega arith))
      (λ fb' shorter. drain-frames_in fuel fb' (omega arith))

pub append_bytes :
    (fb : FrameBuf) (chunk : List ℕ)
    → (river2_framebuf_append true fb chunk).1.bytes ≡ fb.bytes ++ chunk
unfolding river2_framebuf_append
append_bytes fb [] = sym (append-nil fb.bytes)
append_bytes fb (x ∷ xs) = ground arith

-- What is left holds no further frame.
append_self : (xs ys : List Frame) → xs ≡ xs ++ ys → ys ≡ []
append_self xs [] e = refl
append_self xs (y ∷ ys) e = absurd (omega (arith, ap length e, length-append xs (y ∷ ys)))

frames_in-settled : (bytes : List ℕ) → frames_in (frames_in bytes).1 ≡ ([], (frames_in bytes).1)
frames_in-settled bytes =
    let first = frames_in bytes in
    let second = frames_in first.1 in
    let again : first ≡ (first.0 ++ second.0, second.1) =
      ap frames_in (sym (append-nil bytes))
      ∙ frames_in-append bytes []
      ∙ ap (λ l. prepend first.0 (frames_in l)) (append-nil first.1) in
    let none_new : second.0 ≡ [] = append_self first.0 second.0 (ap (λ r. r.0) again) in
    let same_left : second.1 ≡ first.1 = sym (ap (λ r. r.1) again) in λ i. (none_new i, same_left i)

receive_settled :
    (chunks : List (List ℕ)) (fb : FrameBuf)
    → frames_in fb.bytes ≡ ([], fb.bytes)
    → seen (receive chunks fb) ≡ frames_in (fb.bytes ++ flatten chunks)
unfolding receive flatten
receive_settled [] fb settled = sym (ap frames_in (append-nil fb.bytes) ∙ settled)
receive_settled (chunk ∷ chunks) fb settled =
    let fb1 = (river2_framebuf_append true fb chunk).1 in
    let drained = drain (suc (length fb1.bytes)) fb1 in
    let rest = flatten chunks in
    let all_out : seen drained ≡ frames_in fb1.bytes =
      drain-frames_in (suc (length fb1.bytes)) fb1 (omega arith) in
    let left_eq : drained.1.bytes ≡ (frames_in fb1.bytes).1 = ap (λ r. r.1) all_out in
    let settled' : frames_in drained.1.bytes ≡ ([], drained.1.bytes) =
      subst (λ l. frames_in l ≡ ([], l)) (sym left_eq) (frames_in-settled fb1.bytes) in
    ap (prepend drained.0) (receive_settled chunks drained.1 settled')
    ∙ ap (then_more rest) all_out
    ∙ sym (frames_in-append fb1.bytes rest)
    ∙ ap (λ l. frames_in (l ++ rest)) (append_bytes fb chunk)
    ∙ ap frames_in (append_assoc fb.bytes chunk rest)

-- However a stream is split into notifications, the client receives the frames, and is left with
-- the bytes, that it would have had from the whole stream in one notification.
pub receive-flatten :
    (chunks : List (List ℕ))
    → seen (receive chunks river2_framebuf_init)
      ≡ seen (receive (flatten chunks ∷ []) river2_framebuf_init)
unfolding river2_framebuf_init flatten
receive-flatten chunks =
    let empty_settled : frames_in [] ≡ ([], []) = frames_in-wait [] [] scan-nil in
    receive_settled chunks river2_framebuf_init empty_settled
    ∙ sym (
        receive_settled (flatten chunks ∷ []) river2_framebuf_init empty_settled
        ∙ ap frames_in (append-nil (flatten chunks)))

-- What the client receives, by the frames that the stream holds.
pub receive-frames_in :
    (chunks : List (List ℕ))
    → seen (receive chunks river2_framebuf_init) ≡ frames_in (flatten chunks)
unfolding river2_framebuf_init
receive-frames_in chunks =
    receive_settled chunks river2_framebuf_init (frames_in-wait [] [] scan-nil)

-- With memory to be had an append succeeds.
pub append_done : (fb : FrameBuf) (chunk : List ℕ) → (river2_framebuf_append true fb chunk).0 ≡ true
unfolding river2_framebuf_append
append_done fb [] = refl
append_done fb (x ∷ xs) = ground arith
