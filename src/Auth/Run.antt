-- ===== src/Auth/Run.antt =====
-- `river2_auth_run`, step by step.
pub mod Fuel
pub mod Returns
pub mod Frees
pub mod Agreed
pub mod Agrees
use embed_beetroot_hw_2_7_pr.Auth.Replies.{Verdict, judge, status_verdict, auth_verdict, await}
use embed_beetroot_hw_2_7_pr.Prelude.{
  ℕ, zero, suc, ◌+◌, ◌-◌, ◌*◌, ◌/◌, ◌%◌, min, Bool, true, false, not, ◌&&◌, ◌||◌, Option, none,
  some, List, [], ◌∷◌, ◌++◌, ltb, leb, ◌==◌, if◌then◌else◌, length, get_or, take, drop, replicate,
  memcpy, Result, ok, err, EspErr, invalid_state, invalid_size, invalid_response, not_supported,
  timeout,
}
use embed_beetroot_hw_2_7_pr.Packet.Words.{
  river2_frame_command, river2_frame_data, river2_addr_app, river2_addr_auth,
}
use embed_beetroot_hw_2_7_pr.Packet.Inner.{InnerPacket, river2_inner_parse}
use embed_beetroot_hw_2_7_pr.Packet.Reassembly.{
  FrameBuf, river2_framebuf_init, river2_framebuf_free,
}
use embed_beetroot_hw_2_7_pr.Session.{Psa, Session, river2_md5, river2_session_decrypt}
use embed_beetroot_hw_2_7_pr.Ecdh.{
  EcdhCtx, river2_ecdh_gen_keypair, river2_ecdh_free, river2_ecdh_shared_secret,
  river2_ecdh_pubkey_size,
}
use embed_beetroot_hw_2_7_pr.Config.{EcoflowConfig, user_id_size}
use embed_beetroot_hw_2_7_pr.Auth.{
  World, Reading, Platform, Action, ◌>>=◌, ◌>>◌, lift, wait_for_frame, send_frame,
  send_inner_encrypted, derive_session_key, step_timeout_ms, notify_chunk_max,
}

-- The public key that the curve of that type has, in bytes.
unfoldable pub dev_pub_size : ℕ → ℕ
dev_pub_size curve_type =
    if curve_type == 1
    then 52
    else if curve_type == 2
    then 56
    else if curve_type == 3 || curve_type == 4
    then 64
    else 40

-- The tests on the reply to the public key; the device's key.
unfoldable pub public_key_reply : List ℕ → Result (List ℕ)
unfolding dev_pub_size
public_key_reply reply =
    if ltb (length reply) 3 || not (get_or reply 0 0 == 0x01)
    then err invalid_response
    else let size = dev_pub_size (get_or reply 2 0) in
      if not (size == river2_ecdh_pubkey_size)
      then err not_supported
      else if ltb (length reply) (3 + size)
      then err invalid_size
      else ok (take size (drop 3 reply))

-- The tests on the reply to the session-key request; its ciphertext.
unfoldable pub session_key_reply : List ℕ → Result (List ℕ)
session_key_reply reply =
    if ltb (length reply) 2 || not (get_or reply 0 0 == 0x02)
    then err invalid_response
    else ok (drop 1 reply)

unfoldable pub long_enough : List ℕ → Result (List ℕ)
long_enough decrypted = if ltb (length decrypted) 18 then err invalid_size else ok decrypted

unfoldable pub hex_digit : ℕ → ℕ
hex_digit d = if ltb d 10 then 48 + d else 55 + d

-- The loop over the digest: `snprintf` writes two digits and a NUL, of which the last is written
-- past the array of 32 bytes; that write is left out.
unfoldable pub hex_loop : List ℕ → ℕ → List ℕ → List ℕ
unfolding hex_digit
hex_loop [] i out = out
hex_loop (b ∷ bytes) i out =
    hex_loop bytes (i + 1) (memcpy out (i * 2) (hex_digit (b / 16) ∷ hex_digit (b % 16) ∷ 0 ∷ []))

-- `strnlen`, where what lies past the array is never looked at.
unfoldable pub strnlen : List ℕ → ℕ → ℕ
strnlen [] n = 0
strnlen (c ∷ cs) zero = 0
strnlen (c ∷ cs) (suc n) = let rest = strnlen cs n in if c == 0 then 0 else suc rest

-- After a success a context is allocated.
unfoldable pub allocated : World → Result (EcdhCtx × List ℕ) → Result (EcdhCtx × List ℕ) × World
allocated w (ok pair) = (ok pair, record w { contexts = w.contexts + 1 })
allocated w (err e) = (err e, w)

-- A step that is followed by `river2_ecdh_free`, whatever it ends with.
unfoldable pub freeing : {A : Type 0} → Action A → Action A
unfolding river2_ecdh_free
freeing act w = let (r, w') = act w in (r, record w' { contexts = river2_ecdh_free w'.contexts })

module _ (p : Platform) where
  unfoldable pub new_keypair : Action (EcdhCtx × List ℕ)
  unfolding allocated
  new_keypair w = allocated w (river2_ecdh_gen_keypair p.ecc p.ecdh_memory)

  -- Step 1 with the generated keys
  unfoldable pub exchange_with : EcdhCtx → List ℕ → Action Session
  unfolding public_key_reply
  exchange_with ctx our_pub = do
    send_frame p river2_frame_command (0x01 ∷ 0x00 ∷ our_pub)
    reply ← wait_for_frame river2_frame_command step_timeout_ms
    peer ← lift (public_key_reply reply)
    secret ← lift (river2_ecdh_shared_secret p.ecc ctx peer)
    lift (ok (record { key = take 16 secret; iv = river2_md5 p.psa secret }))

  -- Step 1; the context is freed on every path, here or at `done`.
  unfoldable pub exchange_keys : Action Session
  unfolding new_keypair freeing exchange_with
  exchange_keys = do (ctx, our_pub) ← new_keypair; freeing (exchange_with ctx our_pub)

  -- Step 2
  unfoldable pub request_session_key : EcoflowConfig → Session → Action Session
  unfolding session_key_reply long_enough
  request_session_key cfg interim = do
    send_frame p river2_frame_command (0x02 ∷ [])
    reply ← wait_for_frame river2_frame_command step_timeout_ms
    ciphertext ← lift (session_key_reply reply)
    plain ← lift (river2_session_decrypt p.psa interim ciphertext (p.stack 64) 64)
    decrypted ← lift (long_enough plain)
    key ← lift (derive_session_key p.psa cfg (take 2 (drop 16 decrypted)) (take 16 decrypted))
    lift (ok (record { key = key; iv = interim.iv }))

  -- Step 3
  unfoldable pub wake_up : Session → Action (Unit {0})
  unfolding judge status_verdict await
  wake_up session = do
    send_inner_encrypted p session river2_addr_app river2_addr_auth 0x35 0x89 []
    await (judge p session status_verdict)

  -- Step 4
  unfoldable pub digest_input : EcoflowConfig → List ℕ → Result (List ℕ)
  unfolding strnlen
  digest_input cfg dev_serial =
      let user_len = strnlen cfg.ef_user user_id_size in
      if ltb (user_id_size + 20) (user_len + length dev_serial)
      then err invalid_size
      else ok (take user_len cfg.ef_user ++ dev_serial)

  unfoldable pub authenticate : EcoflowConfig → List ℕ → Session → Action (Unit {0})
  unfolding digest_input hex_loop judge auth_verdict await
  authenticate cfg dev_serial session = do
    md5_in ← lift (digest_input cfg dev_serial)
    let hex_payload = hex_loop (river2_md5 p.psa md5_in) 0 (p.stack 32)
    send_inner_encrypted p session river2_addr_app river2_addr_auth 0x35 0x86 hex_payload
    await (judge p session auth_verdict)

  unfoldable pub handshake : EcoflowConfig → List ℕ → Action Session
  unfolding exchange_keys request_session_key wake_up authenticate
  handshake cfg dev_serial = do
    interim ← exchange_keys
    session ← request_session_key cfg interim
    wake_up session
    authenticate cfg dev_serial session
    lift (ok session)

  -- `out_session` as it is afterwards, next to the code. `dev_serial` is the string without its NUL.
  unfoldable pub river2_auth_run :
      EcoflowConfig → List ℕ → Session → World → Result (Unit {0}) × Session × World
  unfolding handshake
  river2_auth_run cfg dev_serial out_session w =
      let (r, w') = handshake cfg dev_serial (record w { fb = river2_framebuf_init }) in
      let w'' = record w' { fb = river2_framebuf_free w'.fb } in
      elim r [ ok session ↦ (ok tt, session, w'') | err e ↦ (err e, out_session, w'') ]
