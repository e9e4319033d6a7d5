-- ===== src/Auth/Protocol/Honest.antt =====
-- The whole handshake with a device that keeps to the protocol.
use embed_beetroot_hw_2_7_pr.Prelude.{
  ℕ, ◌+◌, ◌≤◌, ◌≡◌, refl, sym, ap, ◌∙◌, arith, subst, some, false, List, [], ◌∷◌, ◌++◌, ltb, length,
  take, ok, and_then,
}
use embed_beetroot_hw_2_7_pr.Packet.Words.{
  river2_frame_command, river2_frame_data, river2_addr_auth,
}
use embed_beetroot_hw_2_7_pr.Packet.Inner.{InnerPacket}
use embed_beetroot_hw_2_7_pr.Packet.Outer.Wire.{frame_of}
use embed_beetroot_hw_2_7_pr.Packet.Reassembly.{Frame}
use embed_beetroot_hw_2_7_pr.Session.{Session, river2_md5}
use embed_beetroot_hw_2_7_pr.Session.Cbc.{encrypted_by, IsCbc, IsSession}
use embed_beetroot_hw_2_7_pr.Config.{EcoflowConfig, user_id_size}
use embed_beetroot_hw_2_7_pr.Auth.{Platform, ◌>>=◌, lift}
use embed_beetroot_hw_2_7_pr.Auth.Hex.{
  AreHexDigits, from_hex, AreHexDigits-IsBytes, hex_loop-from_hex,
}
use embed_beetroot_hw_2_7_pr.Auth.Run.{digest_input, strnlen, hex_loop}
use embed_beetroot_hw_2_7_pr.Auth.Replies.{finished, judge, status_verdict, auth_verdict}
use embed_beetroot_hw_2_7_pr.Auth.Protocol.{Link, agree_secret, agree_session, ask, prove, protocol}
use embed_beetroot_hw_2_7_pr.Auth.Protocol.Sending.{Works, Seals, seal-Seals}
use embed_beetroot_hw_2_7_pr.Auth.Protocol.Hearing.{frame, ArePassed}
use embed_beetroot_hw_2_7_pr.Auth.Protocol.Device.{
  interim_of, Digests, session_of, agree_secret_lem, session_of-IsSession, agree_session_lem,
}
use embed_beetroot_hw_2_7_pr.Auth.{World}
use embed_beetroot_hw_2_7_pr.Auth.Run.{river2_auth_run}
use embed_beetroot_hw_2_7_pr.Auth.Taking.{stream}
use embed_beetroot_hw_2_7_pr.Packet.Reassembly.Chunks.{frames_in}
use embed_beetroot_hw_2_7_pr.Auth.Protocol.Follows.{IsInTime}
use embed_beetroot_hw_2_7_pr.Auth.Protocol.Refines.{out_session, river2_auth_run-protocol}
use embed_beetroot_hw_2_7_pr.Auth.Protocol.Conversation.{
  Packed, Talks, Says, ask_lem, auth_verdict-accepted, status_verdict-status, four, four_steps,
}

module _ (p : Platform) (works : Works p) (digests : Digests p.psa)
    (cbc_encrypt cbc_decrypt : List ℕ → List ℕ → List ℕ → List ℕ)
    (laws : IsCbc p.psa cbc_encrypt cbc_decrypt) (cfg : EcoflowConfig) (dev_serial : List ℕ)
    (short : strnlen cfg.ef_user user_id_size + length dev_serial ≤ user_id_size + 20)
    (our_pub secret : List ℕ) (seed0 seed1 : ℕ) (srand : List ℕ) where
  abbrev pub proof_input : List ℕ
  proof_input = take (strnlen cfg.ef_user user_id_size) cfg.ef_user ++ dev_serial

  digest_input_lem : digest_input p cfg dev_serial ≡ ok proof_input
  unfolding digest_input
  digest_input_lem =
      let fits : ltb (user_id_size + 20) (strnlen cfg.ef_user user_id_size + length dev_serial)
          ≡ false =
        ground arith in
      rw fits refl

  hex_lem :
      (let hex = hex_loop (river2_md5 p.psa proof_input) 0 (p.stack 32) in
        AreHexDigits hex × (length hex ≡ 32) × (from_hex hex ≡ p.psa.hash_compute_md5 proof_input))
  unfolding river2_md5
  hex_lem =
      let digest = p.psa.hash_compute_md5 proof_input in
      let hex =
        hex_loop-from_hex digest (p.stack 32) (digests.are_bytes proof_input)
          (omega (arith, works.arrays 32, digests.size proof_input)) in
      (hex.0, hex.1 ∙ works.arrays 32, hex.2)

  prove_lem :
      (c : Session) (session : IsSession c) (packet : InnerPacket) (packed : Packed packet)
      (skipped later : List Frame) (sent : List (List ℕ))
      (s : Seals p c river2_addr_auth 0x35 0x86
        (hex_loop (river2_md5 p.psa proof_input) 0 (p.stack 32)))
      → ArePassed (judge p c auth_verdict) skipped
      → auth_verdict (some packet) ≡ finished (ok tt)
      → prove p cfg dev_serial c (record {
        incoming =
            skipped ++ frame river2_frame_data (encrypted_by cbc_encrypt c packed.inner) ∷ later;
        sent = sent;
      })
        ≡ (
          ok tt,
          record { incoming = later; sent = sent ++ frame_of river2_frame_data s.encrypted ∷ [] },
        )
  unfolding prove
  prove_lem c session packet packed skipped later sent s passed ends =
      let asked =
        ask_lem p works cbc_encrypt cbc_decrypt laws c session 0x86
          (hex_loop (river2_md5 p.psa proof_input) 0 (p.stack 32)) auth_verdict packet packed
          skipped later sent s passed ends in
      simp (◌>>=◌, lift, digest_input_lem, asked)

  protocol_lem :
      (frames : List Frame) (sent : List (List ℕ))
      (talk : Talks p cbc_encrypt cfg our_pub secret seed0 seed1 srand frames)
      → (let session = session_of p cfg secret seed0 seed1 srand in
          (after : Link) × (protocol p cfg dev_serial (record { incoming = frames; sent = sent })
            ≡ (ok session, after))
          × Says p session our_pub proof_input sent after.sent)
  unfolding protocol
  protocol_lem frames sent talk =
      let session = session_of p cfg secret seed0 seed1 srand in
      let is_session =
        session_of-IsSession p works digests cbc_encrypt cbc_decrypt laws cfg secret seed0 seed1
          srand in
      let hex = hex_loop (river2_md5 p.psa proof_input) 0 (p.stack 32) in
      let wake =
        seal-Seals p works cbc_encrypt cbc_decrypt laws session is_session river2_addr_auth 0x35
          0x89 [] (omega arith) tt (omega arith) in
      let proof =
        seal-Seals p works cbc_encrypt cbc_decrypt laws session is_session river2_addr_auth 0x35
          0x86 hex (omega arith) (AreHexDigits-IsBytes hex hex_lem.0) (omega (arith, hex_lem.1)) in
      let status_frame =
        frame river2_frame_data (encrypted_by cbc_encrypt session talk.status_packed.inner) in
      let auth_frame =
        frame river2_frame_data (encrypted_by cbc_encrypt session talk.auth_packed.inner) in
      let seed_frame =
        frame river2_frame_command
          (0x02 ∷ encrypted_by cbc_encrypt (interim_of p secret) (srand ++ seed0 ∷ seed1 ∷ [])) in
      let from_auth = talk.before_auth ++ auth_frame ∷ talk.later in
      let from_status = talk.before_status ++ status_frame ∷ from_auth in
      let from_seed = talk.before_seed ++ seed_frame ∷ from_status in
      let first = frame_of river2_frame_command (0x01 ∷ 0x00 ∷ our_pub) in
      let second = frame_of river2_frame_command (0x02 ∷ []) in
      let third = frame_of river2_frame_data wake.encrypted in
      let fourth = frame_of river2_frame_data proof.encrypted in
      let step1 =
        agree_secret_lem p works our_pub talk.dev_pub secret talk.keys talk.unused talk.curve
          talk.before_key from_seed sent talk.known_curve talk.key_first in
      let step2 =
        agree_session_lem p works digests cbc_encrypt cbc_decrypt laws cfg secret seed0 seed1 srand
          talk.before_seed from_status (sent ++ first ∷ []) talk.keys.secret_size talk.seeds
          talk.seed_first in
      let step3 =
        ask_lem p works cbc_encrypt cbc_decrypt laws session is_session 0x89 [] status_verdict
          talk.status talk.status_packed talk.before_status from_auth
          ((sent ++ first ∷ []) ++ second ∷ []) wake talk.status_first
          (status_verdict-status talk.status talk.is_status) in
      let step4 =
        prove_lem session is_session talk.auth talk.auth_packed talk.before_auth talk.later
          (((sent ++ first ∷ []) ++ second ∷ []) ++ third ∷ []) proof talk.auth_first
          (auth_verdict-accepted talk.auth talk.is_auth talk.auth_len talk.accepted) in
      (
        record {
          incoming = talk.later;
          sent = (((sent ++ first ∷ []) ++ second ∷ []) ++ third ∷ []) ++ fourth ∷ [];
        },
        (ap (λ l. protocol p cfg dev_serial (record { incoming = l; sent = sent })) talk.order
            ∙ four_steps (agree_secret p) (agree_session p cfg)
                (λ session. ask p session 0x89 [] (judge p session status_verdict))
                (prove p cfg dev_serial) step1 step2 step3 step4),
        record {
          wake = third;
          proof = fourth;
          hex = hex;
          digest = hex_lem.2;
          frames = four sent first second third fourth;
          wakes = wake.brings;
          proves = proof.brings;
        },
      )

  -- With a cryptographic library that does CBC and MD5 as documented, a platform on which no call
  -- fails, memory, a user id and a serial number that fit, and notifications that come in time,
  -- however the frames in them are split: when these hold, in this order, the four replies of a
  -- device that keeps to the protocol, with no other command frame before the first two, and
  -- before the last two no data frame but such as decrypt without an error to what the step passes
  -- over, then the handshake succeeds; the caller's session is the one that the device derives;
  -- and four frames were sent, the last two of which bring the device of that session the wake-up
  -- and the user's proof, whose hexadecimal digits are the digest of the user id and the serial
  -- number.
  pub river2_auth_run-Talks :
      (before : Session) (w : World)
      → IsInTime w.clock w
      → Talks p cbc_encrypt cfg our_pub secret seed0 seed1 srand (frames_in (stream w.readings)).0
      → (let (code, session, w') = river2_auth_run p cfg dev_serial before w in
          (code ≡ ok tt)
          × (session ≡ session_of p cfg secret seed0 seed1 srand)
          × Says p (session_of p cfg secret seed0 seed1 srand) our_pub proof_input w.sent w'.sent)
  river2_auth_run-Talks before w in_time talk =
      let session = session_of p cfg secret seed0 seed1 srand in
      let (after, done, says) = protocol_lem (frames_in (stream w.readings)).0 w.sent talk in
      let (code, result, sent, freed) =
        river2_auth_run-protocol p cfg dev_serial before w in_time in
      (
        code ∙ ap (λ d. and_then d.0 (λ session. ok tt)) done,
        result ∙ ap (λ d. out_session before d.0) done,
        subst (Says p session our_pub proof_input w.sent) (sym (sent ∙ ap (λ d. d.1.sent) done))
            says,
      )
