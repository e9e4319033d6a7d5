-- ===== src/Auth/Protocol/Sending.antt =====
-- What a sender puts on the wire when nothing fails: a frame of a payload, and the ciphertext of
-- an inner packet, which brings the packet to a device of the same session.
use embed_beetroot_hw_2_7_pr.Prelude.{
  ℕ, ◌+◌, ◌≤◌, ◌≡◌, refl, sym, ap, ◌∙◌, arith, false, Bool-cases, inl, inr, err, some, List, [],
  ◌∷◌, ◌++◌, ltb, ◌==◌, length, length-append, length-replicate, take, drop, replicate,
  take-append_length, append-nil, IsBytes, IsBytes-append, IsBytes-replicate, ok, and_then,
}
use mathlib.Core.List.{flatten}
use embed_beetroot_hw_2_7_pr.Packet.Words.{river2_frame_data, river2_addr_app}
use embed_beetroot_hw_2_7_pr.Packet.Inner.{InnerPacket, river2_inner_build, river2_inner_parse}
use embed_beetroot_hw_2_7_pr.Packet.Inner.Wire.{
  length-packet_of, packet_of-IsBytes, packet_of, app_bytes, AreBytes, river2_inner_build_lem,
}
use embed_beetroot_hw_2_7_pr.Packet.Inner.RoundTrip.{river2_inner_parse-packet_of}
use embed_beetroot_hw_2_7_pr.Packet.Outer.{river2_outer_build}
use embed_beetroot_hw_2_7_pr.Packet.Outer.Wire.{frame_of, river2_outer_build_lem}
use embed_beetroot_hw_2_7_pr.Packet.Reassembly.{Frame, river2_framebuf_init}
use embed_beetroot_hw_2_7_pr.Packet.Reassembly.Client.{seen, receive}
use embed_beetroot_hw_2_7_pr.Packet.Reassembly.Frames.{receive-on_air, length-frame_of}
use embed_beetroot_hw_2_7_pr.Session.{Session, river2_session_decrypt, aes_cbc_encrypt_pkcs7}
use embed_beetroot_hw_2_7_pr.Session.Cbc.{
  IsCbc, IsSession, pkcs7, pkcs7_pad, encrypt_run, river2_session_decrypt-encrypt,
}
use embed_beetroot_hw_2_7_pr.Auth.{World, Platform, send_frame, send_inner_encrypted}
use embed_beetroot_hw_2_7_pr.Auth.Protocol.{encode, seal}

-- Bytes on the wire that bring a packet to a device of the same session: in whatever pieces they
-- come, the reassembler takes out one data frame, and its decryption parses to the packet.
pub record Brings (p : Platform) (c : Session) (bytes : List ℕ) (packet : InnerPacket)
    : Type 0 where
  pub frame : Frame
  pub received :
      (chunks : List (List ℕ))
      → flatten chunks ≡ bytes
      → seen (receive chunks river2_framebuf_init) ≡ (frame ∷ [], [])
  pub is_data : frame.frame_type ≡ river2_frame_data
  pub inner : List ℕ
  pub decrypted : river2_session_decrypt p.psa c frame.payload (p.stack 320) 320 ≡ ok inner
  pub parsed : river2_inner_parse inner ≡ some packet

-- What holds of the platform when nothing fails.
pub record Works (p : Platform) : Type 0 where
  pub arrays : (n : ℕ) → length (p.stack n) ≡ n
  pub writes : (sent : List (List ℕ)) (bytes : List ℕ) → p.ble_write sent bytes ≡ ok tt

-- Both senders do first what needs no state.
pub send_frame-encode :
    (p : Platform) (frame_type : ℕ) (payload : List ℕ) (w : World)
    → send_frame p frame_type payload w ≡ elim (encode p frame_type payload) [
      | err e ↦ (err e, w)
      | ok bytes ↦ elim (p.ble_write w.sent bytes) [
        | err e ↦ (err e, w)
        | ok done ↦ (ok tt, record w { sent = w.sent ++ bytes ∷ [] })
      ]
    ]
unfolding send_frame encode
send_frame-encode p frame_type payload w =
    elim (Bool-cases ((river2_outer_build frame_type payload (p.stack 600) 600).0 == 0)) [
      | inl empty ↦ rw empty refl
      | inr some_bytes ↦ rw some_bytes refl
    ]

pub send_inner_encrypted-seal :
    (p : Platform) (c : Session) (src dst cmd_set cmd_id : ℕ) (payload : List ℕ) (w : World)
    → send_inner_encrypted p c src dst cmd_set cmd_id payload w
      ≡ elim (seal p c src dst cmd_set cmd_id payload) [
        | err e ↦ (err e, w)
        | ok encrypted ↦ send_frame p river2_frame_data encrypted w
      ]
unfolding send_inner_encrypted seal
send_inner_encrypted-seal p c src dst cmd_set cmd_id payload w =
    elim (Bool-cases
      ((river2_inner_build src dst cmd_set cmd_id payload (p.stack 300) 300).0 == 0)) [
        | inl empty ↦ rw empty refl
        | inr some_bytes ↦ rw some_bytes refl
      ]

-- The ciphertext of a packet.
pub record Seals (p : Platform) (c : Session) (dst cmd_set cmd_id : ℕ) (payload : List ℕ)
    : Type 0 where
  pub encrypted : List ℕ
  pub sealed : seal p c river2_addr_app dst cmd_set cmd_id payload ≡ ok encrypted
  pub encrypted_bytes : IsBytes encrypted
  pub fits : length encrypted ≤ 592
  pub brings : Brings p c (frame_of river2_frame_data encrypted) (record {
    src = river2_addr_app;
    dst = dst;
    cmd_set = cmd_set;
    cmd_id = cmd_id;
    payload = payload;
    payload_len = length payload;
  })

module _ (p : Platform) (works : Works p) where
  -- A frame of at most 592 bytes goes out as it stands in the protocol.
  pub encode_lem :
      (frame_type : ℕ) (payload : List ℕ)
      → IsBytes payload
      → length payload ≤ 592
      → encode p frame_type payload ≡ ok (frame_of frame_type payload)
  unfolding encode
  encode_lem frame_type payload hp hn =
      let n = length payload in
      let bytes = frame_of frame_type payload in
      let enough : ltb 600 (8 + n) ≡ false = ground arith in
      let built : river2_outer_build frame_type payload (p.stack 600) 600
          ≡ (8 + n, bytes ++ drop (8 + n) (p.stack 600)) =
        river2_outer_build_lem frame_type payload (p.stack 600) 600 hp (omega arith)
          (omega (arith, works.arrays 600))
        ∙ (rw enough refl) in
      let some_bytes : (8 + n == 0) ≡ false = ground arith in
      let whole : take (8 + n) (bytes ++ drop (8 + n) (p.stack 600)) ≡ bytes =
        take-append_length (8 + n) bytes _ (sym (length-frame_of frame_type payload)) in
      rw (built, some_bytes) (ap ok whole)

  pub send_frame_lem :
      (frame_type : ℕ) (payload : List ℕ) (w : World)
      → IsBytes payload
      → length payload ≤ 592
      → send_frame p frame_type payload w
        ≡ (ok tt, record w { sent = w.sent ++ frame_of frame_type payload ∷ [] })
  send_frame_lem frame_type payload w hp hn =
      rw
        (
          send_frame-encode p frame_type payload w,
          encode_lem frame_type payload hp hn,
          works.writes w.sent (frame_of frame_type payload),
        )
        refl

  module _ (cbc_encrypt cbc_decrypt : List ℕ → List ℕ → List ℕ → List ℕ)
      (laws : IsCbc p.psa cbc_encrypt cbc_decrypt) (c : Session) (session : IsSession c) where
    -- A packet of byte-sized fields and at most 282 bytes.
    pub seal-Seals :
        (dst cmd_set cmd_id : ℕ) (payload : List ℕ)
        → AreBytes river2_addr_app dst cmd_set cmd_id
        → IsBytes payload
        → length payload ≤ 282
        → Seals p c dst cmd_set cmd_id payload
    unfolding seal
    seal-Seals dst cmd_set cmd_id payload hs hp hn =
        let n = length payload in
        let inner = packet_of app_bytes river2_addr_app dst cmd_set cmd_id payload in
        let inner_size = length-packet_of river2_addr_app dst cmd_set cmd_id payload in
        let enough : ltb 300 (18 + n) ≡ false = ground arith in
        let built : river2_inner_build river2_addr_app dst cmd_set cmd_id payload (p.stack 300) 300
            ≡ (18 + n, inner ++ drop (18 + n) (p.stack 300)) =
          river2_inner_build_lem river2_addr_app dst cmd_set cmd_id payload (p.stack 300) 300 hs hp
            (omega arith) (omega (arith, works.arrays 300))
          ∙ (rw enough refl) in
        let some_bytes : (18 + n == 0) ≡ false = ground arith in
        let whole : take (18 + n) (inner ++ drop (18 + n) (p.stack 300)) ≡ inner =
          take-append_length (18 + n) inner _ (sym inner_size) in
        let pad = pkcs7_pad (length inner) in
        let padded_size : length (pkcs7 inner) ≡ length inner + pad =
          omega (arith, length-append inner (replicate pad pad), length-replicate pad pad) in
        let encrypted = cbc_encrypt c.key c.iv (pkcs7 inner) in
        let encrypted_bytes : IsBytes encrypted = laws.encrypt_bytes c.key c.iv (pkcs7 inner) (
          IsBytes-append inner (replicate pad pad)
            (packet_of-IsBytes river2_addr_app dst cmd_set cmd_id payload hs hp (omega arith))
            (IsBytes-replicate pad pad (omega arith))) in
        let encrypted_size = laws.encrypt_length c.key c.iv (pkcs7 inner) in
        let sealed : aes_cbc_encrypt_pkcs7 p.psa c inner 320 ≡ ok encrypted =
          encrypt_run p.psa cbc_encrypt cbc_decrypt laws c session inner 320 (omega arith) in
        let opened =
          river2_session_decrypt-encrypt p.psa cbc_encrypt cbc_decrypt laws c session inner
            (p.stack 320) 320 320 (omega arith) (omega arith) in
        record {
          encrypted = encrypted;
          sealed = rw (built, some_bytes, whole) sealed;
          encrypted_bytes = encrypted_bytes;
          fits = omega arith;
          brings = record {
            frame = record { frame_type = river2_frame_data; payload = encrypted };
            received = λ chunks e.
                receive-on_air
                  (record {
                    noise = [];
                    frame = record { frame_type = river2_frame_data; payload = encrypted };
                  }
                    ∷ [])
                  chunks
                  (
                    tt,
                    record {
                      type_fits = omega arith;
                      payload_bytes = encrypted_bytes;
                      payload_fits = omega arith;
                    },
                    tt,
                  )
                  (e ∙ sym (append-nil (frame_of river2_frame_data encrypted)));
            is_data = refl;
            inner = inner;
            decrypted =
                sym (
                  ap (λ r. and_then r (λ e. river2_session_decrypt p.psa c e (p.stack 320) 320))
                    sealed)
                ∙ opened;
            parsed =
                river2_inner_parse-packet_of app_bytes river2_addr_app dst cmd_set cmd_id payload
                  refl (omega arith) hs hp (omega arith);
          };
        }
