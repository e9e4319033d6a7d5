-- ===== src/Auth/Protocol/Hearing.antt =====
-- Single steps of the protocol when nothing fails and what is awaited comes.
use embed_beetroot_hw_2_7_pr.Prelude.{
  ℕ, ◌≤◌, ◌≡◌, refl, ap, ◌∙◌, Bool-cases, inl, inr, ==_iff, List, [], ◌∷◌, ◌++◌, ◌==◌, length,
  IsBytes, ok,
}
use embed_beetroot_hw_2_7_pr.Packet.Words.{river2_frame_data, river2_addr_app}
use embed_beetroot_hw_2_7_pr.Packet.Outer.Wire.{frame_of}
use embed_beetroot_hw_2_7_pr.Packet.Reassembly.{Frame}
use embed_beetroot_hw_2_7_pr.Session.{Session}
use embed_beetroot_hw_2_7_pr.Auth.{Platform, ◌>>=◌, lift}
use embed_beetroot_hw_2_7_pr.Auth.Taking.{AreOther}
use embed_beetroot_hw_2_7_pr.Auth.Replies.{Verdict, keep_waiting, finished}
use embed_beetroot_hw_2_7_pr.Auth.Protocol.{
  Link, received, receive_frame, put, transmit, transmit_inner, settle, answered, receive_answer,
}
use embed_beetroot_hw_2_7_pr.Auth.Protocol.Next.{next-skip, next-here}
use embed_beetroot_hw_2_7_pr.Auth.Protocol.Sending.{Works, Seals, encode_lem}

abbrev pub frame : ℕ → List ℕ → Frame
frame frame_type payload = record { frame_type = frame_type; payload = payload }

-- The frames that a step awaiting an answer passes over.
abbrev pub ArePassed : (List ℕ → Verdict) → List Frame → Type 0
ArePassed judged [] = Unit
ArePassed judged (f ∷ frames) =
    (f.frame_type ≡ river2_frame_data → judged f.payload ≡ keep_waiting) × ArePassed judged frames

module _ (p : Platform) (works : Works p) where
  pub put_lem :
      (bytes : List ℕ) (link : Link)
      → put p bytes link ≡ (ok tt, record link { sent = link.sent ++ bytes ∷ [] })
  unfolding put
  put_lem bytes link = rw (put, works.writes link.sent bytes) refl

  pub transmit_lem :
      (frame_type : ℕ) (payload : List ℕ) (link : Link)
      → IsBytes payload
      → length payload ≤ 592
      → transmit p frame_type payload link
        ≡ (ok tt, record link { sent = link.sent ++ frame_of frame_type payload ∷ [] })
  unfolding transmit
  transmit_lem frame_type payload link hp hn =
      ap (λ r. ((lift r >>= put p) link)) (encode_lem p works frame_type payload hp hn)
      ∙ put_lem (frame_of frame_type payload) link

  pub transmit_inner_lem :
      (c : Session) (dst cmd_set cmd_id : ℕ) (payload : List ℕ) (link : Link)
      (s : Seals p c dst cmd_set cmd_id payload)
      → transmit_inner p c river2_addr_app dst cmd_set cmd_id payload link
        ≡ (ok tt, record link { sent = link.sent ++ frame_of river2_frame_data s.encrypted ∷ [] })
  unfolding transmit_inner
  transmit_inner_lem c dst cmd_set cmd_id payload link s =
      rw s.sealed (transmit_lem river2_frame_data s.encrypted link s.encrypted_bytes s.fits)

pub receive_frame_lem :
    (want : ℕ) (payload : List ℕ) (skipped later : List Frame) (sent : List (List ℕ))
    → AreOther want skipped
    → receive_frame want (record { incoming = skipped ++ frame want payload ∷ later; sent = sent })
      ≡ (ok payload, record { incoming = later; sent = sent })
unfolding receive_frame received
receive_frame_lem want payload skipped later sent other =
    rw (next-skip want skipped (frame want payload ∷ later) other, next-here want payload later)
      refl

answered-passed :
    (judged : List ℕ → Verdict) (skipped : List Frame) (payload : List ℕ) (later : List Frame)
    → ArePassed judged skipped
    → judged payload ≡ finished (ok tt)
    → answered judged (skipped ++ frame river2_frame_data payload ∷ later) ≡ (ok tt, later)
unfolding answered settle
answered-passed judged [] payload later h e = rw e refl
answered-passed judged (f ∷ skipped) payload later h e =
    elim (Bool-cases (f.frame_type == river2_frame_data)) [
      | inl data_frame ↦
          let passed : judged f.payload ≡ keep_waiting =
            h.0 ((==_iff f.frame_type river2_frame_data).0 data_frame) in
          rw (data_frame, passed) (answered-passed judged skipped payload later h.1 e)
      | inr other ↦ rw other (answered-passed judged skipped payload later h.1 e)
    ]

pub receive_answer_lem :
    (judged : List ℕ → Verdict) (skipped : List Frame) (payload : List ℕ) (later : List Frame)
    (sent : List (List ℕ))
    → ArePassed judged skipped
    → judged payload ≡ finished (ok tt)
    → receive_answer judged
        (record { incoming = skipped ++ frame river2_frame_data payload ∷ later; sent = sent })
      ≡ (ok tt, record { incoming = later; sent = sent })
unfolding receive_answer
receive_answer_lem judged skipped payload later sent h e =
    ap (λ d. (d.0, record { incoming = d.1; sent = sent }))
      (answered-passed judged skipped payload later h e)
