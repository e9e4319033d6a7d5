-- ===== src/Auth/Protocol.antt =====
-- The handshake of main/src/river2_auth.c as the protocol has it: what is received is a sequence
-- of frames, and a step that awaits one ends with a timeout where the sequence ends. There is no
-- clock, no buffer and no notification.
pub mod Follows
pub mod Next
pub mod Awaits
pub mod Sending
pub mod Whole
pub mod Moves
pub mod Refines
pub mod Hearing
pub mod Hears
pub mod Takes
pub mod Device
pub mod Conversation
pub mod Honest
pub mod Replies
pub mod Heard
pub mod Sample
pub mod Talk
mod Tests
use embed_beetroot_hw_2_7_pr.Prelude.{
  ℕ, ◌==◌, Option, none, some, List, [], ◌∷◌, ◌++◌, take, drop, if◌then◌else◌, Result, ok, err,
  invalid_size, timeout, not_supported,
}
use embed_beetroot_hw_2_7_pr.Packet.Words.{
  river2_frame_command, river2_frame_data, river2_addr_app, river2_addr_auth,
}
use embed_beetroot_hw_2_7_pr.Packet.Inner.{river2_inner_build}
use embed_beetroot_hw_2_7_pr.Packet.Outer.{river2_outer_build}
use embed_beetroot_hw_2_7_pr.Packet.Reassembly.{Frame}
use embed_beetroot_hw_2_7_pr.Session.{
  Session, river2_md5, aes_cbc_encrypt_pkcs7, river2_session_decrypt,
}
use embed_beetroot_hw_2_7_pr.Ecdh.{river2_ecdh_gen_keypair, river2_ecdh_shared_secret}
use embed_beetroot_hw_2_7_pr.Config.{EcoflowConfig}
use embed_beetroot_hw_2_7_pr.Auth.{Platform, StepOn, ◌>>=◌, ◌>>◌, lift, derive_session_key}
use embed_beetroot_hw_2_7_pr.Auth.Run.{
  public_key_reply, session_key_reply, long_enough, digest_input, hex_loop,
}
use embed_beetroot_hw_2_7_pr.Auth.Replies.{
  Verdict, keep_waiting, finished, judge, status_verdict, auth_verdict,
}

-- The frames to come, and those that were sent.
pub record Link : Type 0 where
  pub incoming : List Frame
  pub sent : List (List ℕ)

abbrev pub Exchange : Type 0 → Type 0
Exchange A = StepOn Link A

-- The first frame of a type, and the frames behind it; the frames before it are lost.
unfoldable pub next : ℕ → List Frame → Option (List ℕ × List Frame)
next want [] = none
next want (frame ∷ later) =
    let rest = next want later in
    if frame.frame_type == want then some (frame.payload, later) else rest

unfoldable pub received : List (List ℕ) → Option (List ℕ × List Frame) → Result (List ℕ) × Link
received sent none = (err timeout, record { incoming = []; sent = sent })
received sent (some (payload, later)) = (ok payload, record { incoming = later; sent = sent })

unfoldable pub receive_frame : ℕ → Exchange (List ℕ)
unfolding next received
receive_frame want link = received link.sent (next want link.incoming)

unfoldable pub put : Platform → List ℕ → Exchange (Unit {0})
put p bytes link = elim (p.ble_write link.sent bytes) [
  | err e ↦ (err e, link)
  | ok done ↦ (ok tt, record link { sent = link.sent ++ bytes ∷ [] })
]

-- A frame's bytes, and the ciphertext of an inner packet, or why there is none.
unfoldable pub encode : Platform → ℕ → List ℕ → Result (List ℕ)
encode p frame_type payload =
    let (frame_len, frame) = river2_outer_build frame_type payload (p.stack 600) 600 in
    if frame_len == 0 then err invalid_size else ok (take frame_len frame)

unfoldable pub seal : Platform → Session → (src dst cmd_set cmd_id : ℕ) → List ℕ → Result (List ℕ)
seal p cipher src dst cmd_set cmd_id payload =
    let (inner_len, inner) = river2_inner_build src dst cmd_set cmd_id payload (p.stack 300) 300 in
    if inner_len == 0
    then err invalid_size
    else aes_cbc_encrypt_pkcs7 p.psa cipher (take inner_len inner) 320

unfoldable pub transmit : Platform → ℕ → List ℕ → Exchange (Unit {0})
unfolding encode put
transmit p frame_type payload = do bytes ← lift (encode p frame_type payload); put p bytes

unfoldable pub transmit_inner :
    Platform → Session → (src dst cmd_set cmd_id : ℕ) → List ℕ → Exchange (Unit {0})
unfolding seal transmit
transmit_inner p cipher src dst cmd_set cmd_id payload = do
  encrypted ← lift (seal p cipher src dst cmd_set cmd_id payload)
  transmit p river2_frame_data encrypted

-- The first reply that ends a step, among the data frames.
unfoldable pub settle :
    Verdict → List Frame → Result (Unit {0}) × List Frame → Result (Unit {0}) × List Frame
settle keep_waiting later rest = rest
settle (finished r) later rest = (r, later)

unfoldable pub answered : (List ℕ → Verdict) → List Frame → Result (Unit {0}) × List Frame
unfolding settle
answered judged [] = (err timeout, [])
answered judged (frame ∷ later) =
    let rest = answered judged later in
    if frame.frame_type == river2_frame_data then settle (judged frame.payload) later rest else rest

unfoldable pub receive_answer : (List ℕ → Verdict) → Exchange (Unit {0})
unfolding answered
receive_answer judged link =
    let (r, later) = answered judged link.incoming in
    (r, record { incoming = later; sent = link.sent })

module _ (p : Platform) where
  unfoldable pub agree_secret : Exchange Session
  unfolding transmit receive_frame public_key_reply
  agree_secret = do
    (ctx, our_pub) ← lift (river2_ecdh_gen_keypair p.ecc p.ecdh_memory)
    transmit p river2_frame_command (0x01 ∷ 0x00 ∷ our_pub)
    reply ← receive_frame river2_frame_command
    peer ← lift (public_key_reply reply)
    secret ← lift (river2_ecdh_shared_secret p.ecc ctx peer)
    lift (ok (record { key = take 16 secret; iv = river2_md5 p.psa secret }))

  unfoldable pub agree_session : EcoflowConfig → Session → Exchange Session
  unfolding transmit receive_frame session_key_reply long_enough
  agree_session cfg interim = do
    transmit p river2_frame_command (0x02 ∷ [])
    reply ← receive_frame river2_frame_command
    ciphertext ← lift (session_key_reply reply)
    plain ← lift (river2_session_decrypt p.psa interim ciphertext (p.stack 64) 64)
    decrypted ← lift (long_enough plain)
    key ← lift (derive_session_key p.psa cfg (take 2 (drop 16 decrypted)) (take 16 decrypted))
    lift (ok (record { key = key; iv = interim.iv }))

  unfoldable pub ask : Session → (cmd_id : ℕ) → List ℕ → (List ℕ → Verdict) → Exchange (Unit {0})
  unfolding transmit_inner receive_answer
  ask session cmd_id payload judged = do
    transmit_inner p session river2_addr_app river2_addr_auth 0x35 cmd_id payload
    receive_answer judged

  unfoldable pub prove : EcoflowConfig → List ℕ → Session → Exchange (Unit {0})
  unfolding ask
  prove cfg dev_serial session = do
    md5_in ← lift (digest_input p cfg dev_serial)
    ask session 0x86 (hex_loop (river2_md5 p.psa md5_in) 0 (p.stack 32))
        (judge p session auth_verdict)

  unfoldable pub protocol : EcoflowConfig → List ℕ → Exchange Session
  unfolding agree_secret agree_session ask prove
  protocol cfg dev_serial = do
    interim ← agree_secret
    session ← agree_session cfg interim
    ask session 0x89 [] (judge p session status_verdict)
    prove cfg dev_serial session
    lift (ok session)
