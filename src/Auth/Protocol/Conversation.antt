-- ===== src/Auth/Protocol/Conversation.antt =====
-- What a device says that keeps to the protocol, what the firmware says, and one question with
-- its answer.
use embed_beetroot_hw_2_7_pr.Prelude.{
  ℕ, ◌≤◌, ◌≡◌, refl, ap, ◌∙◌, arith, Option, some, true, List, [], ◌∷◌, ◌++◌, length, ok,
}
use embed_beetroot_hw_2_7_pr.Packet.Words.{
  river2_frame_command, river2_frame_data, river2_addr_auth,
}
use embed_beetroot_hw_2_7_pr.Packet.Inner.{InnerPacket, river2_inner_parse}
use embed_beetroot_hw_2_7_pr.Packet.Outer.Wire.{frame_of}
use embed_beetroot_hw_2_7_pr.Packet.Reassembly.{Frame}
use embed_beetroot_hw_2_7_pr.Session.{Session}
use embed_beetroot_hw_2_7_pr.Session.Cbc.{encrypted_by, decrypt-encrypted_by, IsCbc, IsSession}
use embed_beetroot_hw_2_7_pr.Config.{EcoflowConfig}
use embed_beetroot_hw_2_7_pr.Auth.{Platform, ◌>>=◌, ◌>>◌, lift}
use embed_beetroot_hw_2_7_pr.Auth.Hex.{from_hex}
use embed_beetroot_hw_2_7_pr.Auth.Taking.{AreOther}
use embed_beetroot_hw_2_7_pr.Auth.Run.{dev_pub_size}
use embed_beetroot_hw_2_7_pr.Auth.Replies.{
  Verdict, finished, judge, is_status_reply, is_auth_reply, status_verdict, auth_verdict,
}
use embed_beetroot_hw_2_7_pr.Auth.Protocol.{Link, Exchange, ask}
use embed_beetroot_hw_2_7_pr.Auth.Protocol.Sending.{Works, Brings, Seals}
use embed_beetroot_hw_2_7_pr.Auth.Protocol.Hearing.{
  frame, ArePassed, transmit_inner_lem, receive_answer_lem,
}
use embed_beetroot_hw_2_7_pr.Auth.Protocol.Device.{interim_of, Exchanges, Seeds, session_of}

-- An inner packet as a device of a session sends it.
pub record Packed (packet : InnerPacket) : Type 0 where
  pub inner : List ℕ
  pub parsed : river2_inner_parse inner ≡ some packet
  pub fits : length inner ≤ 240

module _ (p : Platform) (works : Works p)
    (cbc_encrypt cbc_decrypt : List ℕ → List ℕ → List ℕ → List ℕ)
    (laws : IsCbc p.psa cbc_encrypt cbc_decrypt) (c : Session) (session : IsSession c) where
  judged_as :
      (verdict : Option InnerPacket → Verdict) (packet : InnerPacket) (packed : Packed packet)
      → judge p c verdict (encrypted_by cbc_encrypt c packed.inner) ≡ verdict (some packet)
  unfolding judge
  judged_as verdict packet packed =
      rw
        (
          judge,
          decrypt-encrypted_by p.psa cbc_encrypt cbc_decrypt laws c session packed.inner
              (p.stack 256) 256 (omega (arith, packed.fits)),
        )
        (ap verdict packed.parsed)

  pub ask_lem :
      (cmd_id : ℕ) (payload : List ℕ) (verdict : Option InnerPacket → Verdict)
      (packet : InnerPacket) (packed : Packed packet) (skipped later : List Frame)
      (sent : List (List ℕ)) (s : Seals p c river2_addr_auth 0x35 cmd_id payload)
      → ArePassed (judge p c verdict) skipped
      → verdict (some packet) ≡ finished (ok tt)
      → ask p c cmd_id payload (judge p c verdict) (record {
        incoming =
            skipped ++ frame river2_frame_data (encrypted_by cbc_encrypt c packed.inner) ∷ later;
        sent = sent;
      })
        ≡ (
          ok tt,
          record { incoming = later; sent = sent ++ frame_of river2_frame_data s.encrypted ∷ [] },
        )
  unfolding ask
  ask_lem cmd_id payload verdict packet packed skipped later sent s passed ends =
      let answer = encrypted_by cbc_encrypt c packed.inner in
      let told =
        transmit_inner_lem p works c river2_addr_auth 0x35 cmd_id payload
          (record { incoming = skipped ++ frame river2_frame_data answer ∷ later; sent = sent })
          s in
      let heard =
        receive_answer_lem (judge p c verdict) skipped answer later
          (sent ++ frame_of river2_frame_data s.encrypted ∷ []) passed
          (judged_as verdict packet packed ∙ ends) in
      simp (◌>>=◌, told, heard)

-- What a device says that keeps to the protocol: its public key, the answer to the session-key
-- request, an answer to the wake-up, and that the authentication succeeded. Before each there may be
-- such frames as the step that awaits it passes over.
pub record Talks (p : Platform) (cbc_encrypt : List ℕ → List ℕ → List ℕ → List ℕ)
    (cfg : EcoflowConfig) (our_pub secret : List ℕ) (seed0 seed1 : ℕ) (srand : List ℕ)
    (frames : List Frame) : Type 0 where
  pub dev_pub : List ℕ
  pub keys : Exchanges p our_pub dev_pub secret
  pub unused : ℕ
  pub curve : ℕ
  pub known_curve : dev_pub_size curve ≡ 40
  pub seeds : Seeds cfg seed0 seed1 srand
  pub status : InnerPacket
  pub status_packed : Packed status
  pub is_status : is_status_reply status ≡ true
  pub auth : InnerPacket
  pub auth_packed : Packed auth
  pub is_auth : is_auth_reply auth ≡ true
  pub auth_len : auth.payload_len ≡ 1
  pub accepted : auth.payload ≡ 0 ∷ []
  pub before_key : List Frame
  pub before_seed : List Frame
  pub before_status : List Frame
  pub before_auth : List Frame
  pub later : List Frame
  pub key_first : AreOther river2_frame_command before_key
  pub seed_first : AreOther river2_frame_command before_seed
  pub status_first :
      ArePassed (judge p (session_of p cfg secret seed0 seed1 srand) status_verdict) before_status
  pub auth_first :
      ArePassed (judge p (session_of p cfg secret seed0 seed1 srand) auth_verdict) before_auth
  pub order :
      (let session = session_of p cfg secret seed0 seed1 srand in
        frames
        ≡ before_key
          ++ frame river2_frame_command (0x01 ∷ unused ∷ curve ∷ dev_pub)
            ∷ (before_seed
                ++ frame river2_frame_command (
                    0x02
                    ∷ encrypted_by cbc_encrypt (interim_of p secret) (srand ++ seed0 ∷ seed1 ∷ []))
                  ∷ (before_status
                      ++ frame river2_frame_data
                          (encrypted_by cbc_encrypt session status_packed.inner)
                        ∷ (before_auth
                            ++ frame river2_frame_data
                                (encrypted_by cbc_encrypt session auth_packed.inner)
                              ∷ later))))

-- The frames that the handshake sends, and what they bring to the device.
pub record Says (p : Platform) (session : Session) (our_pub md5_in : List ℕ)
    (before after : List (List ℕ)) : Type 0 where
  pub wake : List ℕ
  pub proof : List ℕ
  pub hex : List ℕ
  pub digest : from_hex hex ≡ p.psa.hash_compute_md5 md5_in
  pub frames :
      after
      ≡ before
        ++ frame_of river2_frame_command (0x01 ∷ 0x00 ∷ our_pub)
          ∷ frame_of river2_frame_command (0x02 ∷ [])
          ∷ wake
          ∷ proof
          ∷ []
  pub wakes : Brings p session wake (record {
    src = 0x21;
    dst = 0x35;
    cmd_set = 0x35;
    cmd_id = 0x89;
    payload = [];
    payload_len = 0;
  })
  pub proves : Brings p session proof (record {
    src = 0x21;
    dst = 0x35;
    cmd_set = 0x35;
    cmd_id = 0x86;
    payload = hex;
    payload_len = length hex;
  })

pub four :
    {A : Type 0} (xs : List A) (a b c d : A)
    → (((xs ++ a ∷ []) ++ b ∷ []) ++ c ∷ []) ++ d ∷ [] ≡ xs ++ a ∷ b ∷ c ∷ d ∷ []
four [] a b c d = refl
four (x ∷ xs) a b c d = ap (◌∷◌ x) (four xs a b c d)

-- The four steps one behind the other, when each succeeds.
pub four_steps :
    {A B : Type 0} {s0 s1 s2 s3 s4 : Link} {a : A} {b : B} (m : Exchange A) (m' : A → Exchange B)
    (f g : B → Exchange (Unit {0}))
    → m s0 ≡ (ok a, s1)
    → m' a s1 ≡ (ok b, s2)
    → f b s2 ≡ (ok tt, s3)
    → g b s3 ≡ (ok tt, s4)
    → (m >>= λ a. m' a >>= λ b. (f b >> (g b >> lift (ok b)))) s0 ≡ (ok b, s4)
four_steps {B = B} {s0 = s0} {s1 = s1} {s2 = s2} {s3 = s3} {a = a} {b = b} m m' f g e1 e2 e3 e4 =
    let last = λ (b : B). g b >> lift (ok b) in
    let rest = λ (b : B). f b >> last b in
    ap (λ d. ((λ (s : Link). d) >>= λ a. m' a >>= rest) s0) e1
    ∙ ap (λ d. ((λ (s : Link). d) >>= rest) s1) e2
    ∙ ap (λ d. ((λ (s : Link). d) >> last b) s2) e3
    ∙ ap (λ d. ((λ (s : Link). d) >> lift (ok b)) s3) e4

pub auth_verdict-accepted :
    (packet : InnerPacket)
    → is_auth_reply packet ≡ true
    → packet.payload_len ≡ 1
    → packet.payload ≡ 0 ∷ []
    → auth_verdict (some packet) ≡ finished (ok tt)
unfolding auth_verdict
auth_verdict-accepted packet is_auth size zero_byte = rw (is_auth, size, zero_byte) refl

pub status_verdict-status :
    (packet : InnerPacket)
    → is_status_reply packet ≡ true
    → status_verdict (some packet) ≡ finished (ok tt)
unfolding status_verdict
status_verdict-status packet is_status = rw is_status refl
