-- ===== src/Auth/Protocol/Device.antt =====
-- The first two steps of the handshake, with a device that keeps to the protocol.
use embed_beetroot_hw_2_7_pr.Prelude.{
  ℕ, ◌+◌, ◌-◌, ◌*◌, ◌<◌, ◌≤◌, ◌≡◌, refl, sym, ap, ap₂, ◌∙◌, arith, some, true, false, List, [], ◌∷◌,
  ◌++◌, ltb, ◌==◌, length, length-append, replicate, take, drop, length-take, take-append_length,
  drop-append_length, IsBytes, ok,
}
use embed_beetroot_hw_2_7_pr.Packet.Words.{river2_frame_command}
use embed_beetroot_hw_2_7_pr.Packet.Outer.Wire.{frame_of}
use embed_beetroot_hw_2_7_pr.Packet.Reassembly.{Frame}
use embed_beetroot_hw_2_7_pr.Session.{Psa, Session, river2_md5}
use embed_beetroot_hw_2_7_pr.Session.Cbc.{
  encrypted_by, decrypt-encrypted_by, IsCbc, IsSession, pkcs7, pkcs7_pad, take_whole,
}
use embed_beetroot_hw_2_7_pr.Ecdh.{river2_ecdh_gen_keypair, river2_ecdh_shared_secret}
use embed_beetroot_hw_2_7_pr.Config.{EcoflowConfig, lut_size}
use embed_beetroot_hw_2_7_pr.Auth.{Platform, ◌>>=◌, lift, derive_session_key}
use embed_beetroot_hw_2_7_pr.Auth.Key.{IsUsable, derive_session_key-IsUsable}
use embed_beetroot_hw_2_7_pr.Auth.Taking.{AreOther}
use embed_beetroot_hw_2_7_pr.Auth.Run.{
  dev_pub_size, public_key_reply, session_key_reply, long_enough,
}
use embed_beetroot_hw_2_7_pr.Auth.Protocol.{agree_secret, agree_session}
use embed_beetroot_hw_2_7_pr.Auth.Protocol.Sending.{Works}
use embed_beetroot_hw_2_7_pr.Auth.Protocol.Hearing.{frame, transmit_lem, receive_frame_lem}

abbrev pub interim_of : Platform → List ℕ → Session
interim_of p secret = record { key = take 16 secret; iv = river2_md5 p.psa secret }

-- The key exchange with a device of a public key.
pub record Exchanges (p : Platform) (our_pub dev_pub secret : List ℕ) : Type 0 where
  pub priv : List ℕ
  pub have_memory : p.ecdh_memory ≡ true
  pub made : p.ecc.make_key ≡ some (our_pub, priv)
  pub our_bytes : IsBytes our_pub
  pub our_size : length our_pub ≡ 40
  pub dev_size : length dev_pub ≡ 40
  pub valid : p.ecc.valid_public_key dev_pub ≡ true
  pub agreed : p.ecc.shared_secret dev_pub priv ≡ some secret
  pub secret_size : 16 ≤ length secret

module _ (p : Platform) (works : Works p) (our_pub dev_pub secret : List ℕ)
    (keys : Exchanges p our_pub dev_pub secret) where
  made_pair :
      river2_ecdh_gen_keypair p.ecc p.ecdh_memory ≡ ok (record { priv = keys.priv }, our_pub)
  unfolding river2_ecdh_gen_keypair
  made_pair = rw (keys.have_memory, keys.made) refl

  made_secret : river2_ecdh_shared_secret p.ecc (record { priv = keys.priv }) dev_pub ≡ ok secret
  unfolding river2_ecdh_shared_secret
  made_secret =
      let size : (length dev_pub == 40) ≡ true = ground (arith, keys.dev_size) in
      rw (size, keys.valid, keys.agreed) refl

  reply_lem :
      (unused curve : ℕ)
      → dev_pub_size curve ≡ 40
      → public_key_reply (0x01 ∷ unused ∷ curve ∷ dev_pub) ≡ ok dev_pub
  unfolding public_key_reply
  reply_lem unused curve known =
      let long : (ltb (length (0x01 ∷ unused ∷ curve ∷ dev_pub)) 3) ≡ false = ground arith in
      let enough : (ltb (length (0x01 ∷ unused ∷ curve ∷ dev_pub)) (3 + 40)) ≡ false =
        ground (arith, keys.dev_size) in
      rw (dev_pub_size, known, long, enough) (ap ok (take_whole 40 dev_pub (sym keys.dev_size)))

  pub agree_secret_lem :
      (unused curve : ℕ) (skipped later : List Frame) (sent : List (List ℕ))
      → dev_pub_size curve ≡ 40
      → AreOther river2_frame_command skipped
      → agree_secret p (record {
        incoming = skipped ++ frame river2_frame_command (0x01 ∷ unused ∷ curve ∷ dev_pub) ∷ later;
        sent = sent;
      })
        ≡ (
          ok (interim_of p secret),
          record {
            incoming = later;
            sent = sent ++ frame_of river2_frame_command (0x01 ∷ 0x00 ∷ our_pub) ∷ [];
          },
        )
  unfolding agree_secret
  agree_secret_lem unused curve skipped later sent known other =
      let payload = 0x01 ∷ 0x00 ∷ our_pub in
      let sent' = sent ++ frame_of river2_frame_command payload ∷ [] in
      let reply = 0x01 ∷ unused ∷ curve ∷ dev_pub in
      let told =
        transmit_lem p works river2_frame_command payload
          (record { incoming = skipped ++ frame river2_frame_command reply ∷ later; sent = sent })
          (omega arith, (omega arith, keys.our_bytes)) (omega (arith, keys.our_size)) in
      let heard = receive_frame_lem river2_frame_command reply skipped later sent' other in
      simp (◌>>=◌, lift, made_pair, told, heard, reply_lem unused curve known, made_secret)

-- MD5 gives sixteen bytes.
pub record Digests (psa : Psa) : Type 0 where
  pub size : (bytes : List ℕ) → length (psa.hash_compute_md5 bytes) ≡ 16
  pub are_bytes : (bytes : List ℕ) → IsBytes (psa.hash_compute_md5 bytes)

-- The session that the seed and the random bytes give.
abbrev pub session_of : Platform → EcoflowConfig → List ℕ → ℕ → ℕ → List ℕ → Session
session_of p cfg secret seed0 seed1 srand = record {
  key =
      p.psa.hash_compute_md5
        (take 16 (drop (seed0 * 16 + (seed1 - 1) * 256) cfg.lookup_table) ++ srand);
  iv = p.psa.hash_compute_md5 secret;
}

-- What the device drew for the session key.
pub record Seeds (cfg : EcoflowConfig) (seed0 seed1 : ℕ) (srand : List ℕ) : Type 0 where
  pub table_size : length cfg.lookup_table ≡ lut_size
  pub seed0_byte : seed0 < 256
  pub seed1_byte : seed1 < 256
  pub usable : IsUsable seed0 seed1
  pub srand_size : length srand ≡ 16

module _ (p : Platform) (works : Works p) (digests : Digests p.psa)
    (cbc_encrypt cbc_decrypt : List ℕ → List ℕ → List ℕ → List ℕ)
    (laws : IsCbc p.psa cbc_encrypt cbc_decrypt) where
  interim-IsSession : (secret : List ℕ) → 16 ≤ length secret → IsSession (interim_of p secret)
  unfolding river2_md5
  interim-IsSession secret size = record {
    key_length = omega (arith, length-take 16 secret);
    iv_length = digests.size secret;
  }

  pub session_of-IsSession :
      (cfg : EcoflowConfig) (secret : List ℕ) (seed0 seed1 : ℕ) (srand : List ℕ)
      → IsSession (session_of p cfg secret seed0 seed1 srand)
  session_of-IsSession cfg secret seed0 seed1 srand = record {
    key_length = digests.size _;
    iv_length = digests.size secret;
  }

  derived :
      (cfg : EcoflowConfig) (seed0 seed1 : ℕ) (srand secret : List ℕ)
      → Seeds cfg seed0 seed1 srand
      → derive_session_key p.psa cfg (seed0 ∷ seed1 ∷ []) srand
        ≡ ok ((session_of p cfg secret seed0 seed1 srand).key)
  derived cfg seed0 seed1 srand secret seeds =
      let place = take 16 (drop (seed0 * 16 + (seed1 - 1) * 256) cfg.lookup_table) in
      (derive_session_key-IsUsable p.psa cfg seed0 seed1 srand seeds.table_size seeds.seed0_byte
          seeds.seed1_byte).0
        seeds.usable
      ∙ ap (λ l. ok (p.psa.hash_compute_md5 (place ++ l)))
          (take_whole 16 srand (sym seeds.srand_size))

  pub agree_session_lem :
      (cfg : EcoflowConfig) (secret : List ℕ) (seed0 seed1 : ℕ) (srand : List ℕ)
      (skipped later : List Frame) (sent : List (List ℕ))
      → 16 ≤ length secret
      → Seeds cfg seed0 seed1 srand
      → AreOther river2_frame_command skipped
      → (let answer =
            encrypted_by cbc_encrypt (interim_of p secret) (srand ++ seed0 ∷ seed1 ∷ []) in
          agree_session p cfg (interim_of p secret) (record {
            incoming = skipped ++ frame river2_frame_command (0x02 ∷ answer) ∷ later;
            sent = sent;
          })
          ≡ (
            ok (session_of p cfg secret seed0 seed1 srand),
            record {
              incoming = later;
              sent = sent ++ frame_of river2_frame_command (0x02 ∷ []) ∷ [];
            },
          ))
  unfolding agree_session river2_md5 session_key_reply long_enough
  agree_session_lem cfg secret seed0 seed1 srand skipped later sent size seeds other =
      let interim = interim_of p secret in
      let plain = srand ++ seed0 ∷ seed1 ∷ [] in
      let answer = encrypted_by cbc_encrypt interim plain in
      let plain_size : length plain ≡ 18 =
        omega (arith, length-append srand (seed0 ∷ seed1 ∷ []), seeds.srand_size) in
      let answer_size : 1 ≤ length answer = omega (
        arith,
        laws.encrypt_length interim.key interim.iv (pkcs7 plain),
        length-append plain (replicate (pkcs7_pad (length plain)) (pkcs7_pad (length plain))),
      ) in
      let told =
        transmit_lem p works river2_frame_command (0x02 ∷ [])
          (record {
            incoming = skipped ++ frame river2_frame_command (0x02 ∷ answer) ∷ later;
            sent = sent;
          })
          (omega arith) (omega arith) in
      let heard =
        receive_frame_lem river2_frame_command (0x02 ∷ answer) skipped later
          (sent ++ frame_of river2_frame_command (0x02 ∷ []) ∷ []) other in
      let reply : session_key_reply (0x02 ∷ answer) ≡ ok answer =
        let long_reply : ltb (length (0x02 ∷ answer)) 2 ≡ false = ground arith in
        rw long_reply refl in
      let plain_is =
        decrypt-encrypted_by p.psa cbc_encrypt cbc_decrypt laws interim
          (interim-IsSession secret size) plain (p.stack 64) 64 (omega (arith, plain_size)) in
      let long : long_enough plain ≡ ok plain =
        let not_short : ltb (length plain) 18 ≡ false = ground arith in rw not_short refl in
      let front : take 16 plain ≡ srand =
        take-append_length 16 srand (seed0 ∷ seed1 ∷ []) (sym seeds.srand_size) in
      let behind : drop 16 plain ≡ seed0 ∷ seed1 ∷ [] =
        drop-append_length 16 srand (seed0 ∷ seed1 ∷ []) (sym seeds.srand_size) in
      let made : derive_session_key p.psa cfg (take 2 (drop 16 plain)) (take 16 plain)
          ≡ ok ((session_of p cfg secret seed0 seed1 srand).key) =
        ap₂ (λ seed. derive_session_key p.psa cfg (take 2 seed)) behind front
        ∙ derived cfg seed0 seed1 srand secret seeds in
      simp (◌>>=◌, lift, told, heard, reply, plain_is, long, made)
