-- ===== src/Auth/Protocol/Next.antt =====
-- The next frame that is wanted, in the frames that a buffer and the rest of the stream make.
use embed_beetroot_hw_2_7_pr.Prelude.{
  ℕ, ◌≡◌, refl, sym, ap, ◌∙◌, arith, true, false, some, List, [], ◌∷◌, ◌++◌, append_assoc, ◌==◌,
}
use embed_beetroot_hw_2_7_pr.Packet.Reassembly.{Frame}
use embed_beetroot_hw_2_7_pr.Packet.Reassembly.Chunks.{prepend, frames_in, frames_in-append}
use embed_beetroot_hw_2_7_pr.Auth.Taking.{AreOther, First, NoneWanted}
use embed_beetroot_hw_2_7_pr.Auth.Protocol.{next}

pub next-skip :
    (want : ℕ) (skipped later : List Frame)
    → AreOther want skipped
    → next want (skipped ++ later) ≡ next want later
unfolding next
next-skip want [] later h = refl
next-skip want (frame ∷ skipped) later h =
    let other : (frame.frame_type == want) ≡ false = ground arith in
    rw other (next-skip want skipped later h.1)

pub next-here :
    (want : ℕ) (payload : List ℕ) (later : List Frame)
    → next want (record { frame_type = want; payload = payload } ∷ later) ≡ some (payload, later)
unfolding next
next-here want payload later = let same : (want == want) ≡ true = ground arith in rw same refl

-- What is in the buffer, and then the rest of the stream.
pub next-First :
    (want : ℕ) (bytes payload left more : List ℕ)
    → First want bytes payload left
    → next want (frames_in (bytes ++ more)).0 ≡ some (payload, (frames_in (left ++ more)).0)
next-First want bytes payload left more first =
    let frame : Frame = record { frame_type = want; payload = payload } in
    let front = first.skipped ++ frame ∷ [] in
    let later = (frames_in (left ++ more)).0 in
    let whole : (frames_in (bytes ++ more)).0 ≡ front ++ later =
      ap (λ r. r.0) (frames_in-append bytes more)
      ∙ ap (λ r. r.0 ++ (frames_in (r.1 ++ more)).0) first.order
      ∙ append_assoc front (frames_in left).0 (frames_in ((frames_in left).1 ++ more)).0
      ∙ ap (λ r. front ++ r.0) (sym (frames_in-append left more)) in
    ap (next want) (whole ∙ append_assoc first.skipped (frame ∷ []) later)
    ∙ next-skip want first.skipped (frame ∷ later) first.are_other
    ∙ next-here want payload later

pub next-NoneWanted :
    (want : ℕ) (bytes left more : List ℕ)
    → NoneWanted want bytes left
    → next want (frames_in (bytes ++ more)).0 ≡ next want (frames_in (left ++ more)).0
next-NoneWanted want bytes left more before =
    ap (λ r. next want r.0)
      (frames_in-append bytes more ∙ ap (λ r. prepend r.0 (frames_in (r.1 ++ more))) before.order)
    ∙ next-skip want before.skipped _ before.are_other
