-- ===== src/Auth/Protocol/Moves.antt =====
-- The steps that the handshake is made of follow those of the protocol.
use embed_beetroot_hw_2_7_pr.Prelude.{
  ℕ, zero, suc, ◌<◌, ◌≡◌, refl, sym, ap, ◌∙◌, arith, subst, Option, none, some, Bool-cases, inl,
  inr, List, [], ◌∷◌, ◌++◌, ◌==◌, take, Result, ok, err, Result-cases, timeout,
}
use embed_beetroot_hw_2_7_pr.Packet.Words.{river2_frame_data}
use embed_beetroot_hw_2_7_pr.Packet.Inner.{river2_inner_build}
use embed_beetroot_hw_2_7_pr.Packet.Outer.{river2_outer_build}
use embed_beetroot_hw_2_7_pr.Packet.Reassembly.{Frame}
use embed_beetroot_hw_2_7_pr.Session.{Session, aes_cbc_encrypt_pkcs7}
use embed_beetroot_hw_2_7_pr.Auth.{
  World, Platform, Action, wait_for_frame, send_frame, send_inner_encrypted, step_timeout_ms,
}
use embed_beetroot_hw_2_7_pr.Auth.Replies.{
  Verdict, keep_waiting, finished, go_on, after_reply, pending, await_reply, await,
}
use embed_beetroot_hw_2_7_pr.Auth.Run.Fuel.{Uses, wait_for_frame-Uses}
use embed_beetroot_hw_2_7_pr.Auth.Protocol.{
  Link, next, received, receive_frame, put, encode, seal, transmit, transmit_inner, settle,
  answered, receive_answer,
}
use embed_beetroot_hw_2_7_pr.Auth.Protocol.Follows.{IsInTime, view, Matches, Follows}
use embed_beetroot_hw_2_7_pr.Auth.Protocol.Awaits.{wait_for_frame-Follows}

module _ (p : Platform) (start : ℕ) where
  -- What both do with the bytes.
  put_bytes :
      (bytes : List ℕ) (w : World) (r : Result (Unit {0}))
      → IsInTime start w
      → Matches {A = Unit} start
          (elim r [
            | err e ↦ (err e, w)
            | ok done ↦ (ok tt, record w { sent = w.sent ++ bytes ∷ [] })
          ])
          (elim r [
            | err e ↦ (err e, view w)
            | ok done ↦ (ok tt, record (view w) { sent = w.sent ++ bytes ∷ [] })
          ])
  put_bytes bytes w (err e) in_time = (refl, refl)
  put_bytes bytes w (ok done) in_time =
      (refl, record { memory = in_time.memory; started = in_time.started; coming = in_time.coming })

  pub send_frame-Follows :
      (frame_type : ℕ) (payload : List ℕ)
      → Follows start (send_frame p frame_type payload) (transmit p frame_type payload)
  unfolding send_frame transmit encode put
  send_frame-Follows frame_type payload =
      let built = river2_outer_build frame_type payload (p.stack 600) 600 in
      let bytes = take built.0 built.1 in
      record {
        at = λ w in_time. elim (Bool-cases (built.0 == 0)) [
          | inl empty ↦ rw empty (refl, refl)
          | inr some_bytes ↦ rw some_bytes (put_bytes bytes w (p.ble_write w.sent bytes) in_time)
        ];
      }

  pub send_inner_encrypted-Follows :
      (cipher : Session) (src dst cmd_set cmd_id : ℕ) (payload : List ℕ)
      → Follows start
          (send_inner_encrypted p cipher src dst cmd_set cmd_id payload)
          (transmit_inner p cipher src dst cmd_set cmd_id payload)
  unfolding send_inner_encrypted transmit_inner seal
  send_inner_encrypted-Follows cipher src dst cmd_set cmd_id payload =
      let built = river2_inner_build src dst cmd_set cmd_id payload (p.stack 300) 300 in
      let sealed = aes_cbc_encrypt_pkcs7 p.psa cipher (take built.0 built.1) 320 in
      record {
        at = λ w in_time. elim (Bool-cases (built.0 == 0)) [
          | inl empty ↦ rw empty (refl, refl)
          | inr some_bytes ↦ rw some_bytes (elim (Result-cases sealed) [
            | inl (encrypted, e) ↦
                rw e ((send_frame-Follows river2_frame_data encrypted).at w in_time)
            | inr (code, e) ↦ rw e (refl, refl)
          ])
        ];
      }

-- What is left to do with a reply.
resume : (List ℕ → Verdict) → Result (List ℕ) × Link → Result (Unit {0}) × Link
resume judged (ok payload, link) =
    let (r, later) = settle (judged payload) link.incoming (answered judged link.incoming) in
    (r, record { incoming = later; sent = link.sent })
resume judged (err e, link) = (err e, link)

resume_frames : (List ℕ → Verdict) → Option (List ℕ × List Frame) → Result (Unit {0}) × List Frame
resume_frames judged none = (err timeout, [])
resume_frames judged (some (payload, later)) = settle (judged payload) later (answered judged later)

answered-next :
    (judged : List ℕ → Verdict) (frames : List Frame)
    → answered judged frames ≡ resume_frames judged (next river2_frame_data frames)
unfolding answered next resume_frames
answered-next judged [] = refl
answered-next judged (frame ∷ later) = elim (Bool-cases (frame.frame_type == river2_frame_data)) [
  | inl data_frame ↦ rw data_frame refl
  | inr other ↦ rw other (answered-next judged later)
]

resume_frames-received :
    (judged : List ℕ → Verdict) (sent : List (List ℕ)) (first : Option (List ℕ × List Frame))
    → (let (r, later) = resume_frames judged first in
        ((let done : Result (Unit {0}) × Link = (r, record { incoming = later; sent = sent }) in
            done)
          ≡ resume judged (received sent first)))
unfolding received resume resume_frames
resume_frames-received judged sent none = refl
resume_frames-received judged sent (some (payload, later)) = refl

receive_answer-resume :
    (judged : List ℕ → Verdict) (link : Link)
    → receive_answer judged link ≡ resume judged (receive_frame river2_frame_data link)
unfolding receive_answer receive_frame received resume
receive_answer-resume judged link =
    ap (λ d. (d.0, record { incoming = d.1; sent = link.sent }))
      (answered-next judged link.incoming)
    ∙ resume_frames-received judged link.sent (next river2_frame_data link.incoming)

module _ (start : ℕ) (judged : List ℕ → Verdict) where
  go_on-Matches :
      (rest : Action (Unit {0})) (w : World) (verdict : Verdict)
      → IsInTime start w
      → Matches start (rest w) (receive_answer judged (view w))
      → Matches start (go_on rest verdict w) (
          let incoming = (view w).incoming in
          let (r, later) = settle verdict incoming (answered judged incoming) in
          (r, record { incoming = later; sent = w.sent }))
  unfolding go_on settle receive_answer
  go_on-Matches rest w keep_waiting in_time h = h
  go_on-Matches rest w (finished (ok done)) in_time h = (refl, in_time)
  go_on-Matches rest w (finished (err e)) in_time h = (refl, refl)

  after_reply-Matches :
      (rest : Action (Unit {0})) (n : ℕ) (r : Result (List ℕ) × World)
      (done : Result (List ℕ) × Link)
      → Uses n r
      → Matches start r done
      → ((w : World)
          → pending w < n
          → IsInTime start w
          → Matches start (rest w) (receive_answer judged (view w)))
      → Matches start (after_reply rest judged r) (resume judged done)
  unfolding after_reply resume
  after_reply-Matches rest n (ok payload, w) done used h follow =
      subst (λ d. Matches start (go_on rest (judged payload) w) (resume judged d)) (sym h.0)
        (go_on-Matches rest w (judged payload) h.1 (follow w used h.1))
  after_reply-Matches rest n (err e, w) (ok payload, link) used h follow = cc
  after_reply-Matches rest n (err e, w) (err e', link) used h follow = (cc, h.1)

  await_reply-Matches :
      (fuel : ℕ) (w : World)
      → pending w < fuel
      → IsInTime start w
      → Matches start (await_reply fuel judged w) (receive_answer judged (view w))
  unfolding await_reply
  await_reply-Matches zero w enough in_time = absurd (omega arith)
  await_reply-Matches (suc fuel) w enough in_time =
      subst
        (Matches start (
          after_reply (await_reply fuel judged) judged
            (wait_for_frame river2_frame_data step_timeout_ms w)))
        (sym (receive_answer-resume judged (view w)))
        (after_reply-Matches (await_reply fuel judged) (pending w)
          (wait_for_frame river2_frame_data step_timeout_ms w)
          (receive_frame river2_frame_data (view w))
          (wait_for_frame-Uses river2_frame_data step_timeout_ms w)
          ((wait_for_frame-Follows start river2_frame_data).at w in_time)
          (λ w' less. await_reply-Matches fuel w' (omega arith)))

  pub await-Follows : Follows start (await judged) (receive_answer judged)
  unfolding await
  await-Follows = record {
    at = λ w in_time. await_reply-Matches (suc (pending w)) w (omega arith) in_time;
  }
