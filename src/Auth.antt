-- ===== src/Auth.antt =====
-- main/src/river2_auth.c: waiting for frames, sending, the key derivation; and
-- `river2_send_command`. The handshake is in Auth.Replies and Auth.Run.
pub mod Taking
pub mod Wait
pub mod Key
pub mod Hex
pub mod Replies
pub mod Run
pub mod Protocol
mod Tests
use embed_beetroot_hw_2_7_pr.Prelude.{
  ℕ, zero, suc, ◌+◌, ◌-◌, ◌*◌, ◌/◌, ◌%◌, Bool, true, false, not, ◌&&◌, ◌||◌, Option, none, some,
  List, [], ◌∷◌, ◌++◌, ltb, leb, ◌==◌, if◌then◌else◌, length, get_or, take, drop, replicate, memcpy,
  u8, u32, ◌>>>◌, bit_and, Result, ok, err, EspErr, and_then, no_mem, invalid_state, invalid_size,
  invalid_response, not_supported, timeout,
}
use embed_beetroot_hw_2_7_pr.Packet.Words.{
  river2_frame_command, river2_frame_data, river2_addr_app, river2_addr_auth,
}
use embed_beetroot_hw_2_7_pr.Packet.Inner.{InnerPacket, river2_inner_build, river2_inner_parse}
use embed_beetroot_hw_2_7_pr.Packet.Outer.{river2_outer_build}
use embed_beetroot_hw_2_7_pr.Packet.Reassembly.{
  FrameBuf, Frame, Outcome, extracted, absent, stuck, river2_framebuf_init, river2_framebuf_free,
  river2_framebuf_append, river2_framebuf_extract,
}
use embed_beetroot_hw_2_7_pr.Session.{
  Psa, Session, river2_md5, aes_cbc_encrypt_pkcs7, river2_session_decrypt,
}
use embed_beetroot_hw_2_7_pr.Ecdh.{
  Ecc, EcdhCtx, river2_ecdh_gen_keypair, river2_ecdh_shared_secret, river2_ecdh_pubkey_size,
}
use embed_beetroot_hw_2_7_pr.Config.{EcoflowConfig, user_id_size}
use embed_beetroot_hw_2_7_pr.Ble.Calls.{wait_notification}

abbrev pub step_timeout_ms : ℕ
step_timeout_ms = 20000

abbrev pub notify_chunk_max : ℕ
notify_chunk_max = 512

-- One wait of `wait_for_frame`: whether memory can be had from then on, what `esp_timer_get_time`
-- returns before it, and what comes from the queue of notifications before the wait runs out.
pub record Reading : Type 0 where
  pub memory : Bool
  pub now : ℕ
  pub received : Option (List ℕ)

-- What the handshake works on. Where the readings end, the clock has passed every deadline.
pub record World : Type 0 where
  pub fb : FrameBuf
  pub memory : Bool
  pub clock : ℕ
  pub readings : List Reading
  -- The frames that `river2_ble_write` took, the latest last.
  pub sent : List (List ℕ)
  -- How many ECDH contexts are allocated.
  pub contexts : ℕ

-- What the handshake calls. `ble_write` is `river2_ble_write` after the frames it took so far;
-- `stack` is what a local array of that size holds before anything is written to it.
pub record Platform : Type 1 where
  pub psa : Psa
  pub ecc : Ecc
  pub ecdh_memory : Bool
  pub stack : ℕ → List ℕ
  pub ble_write : List (List ℕ) → List ℕ → Result (Unit {0})

-- A step on a state, which returns the code of its failure as `goto done` does.
abbrev pub StepOn : Type 0 → Type 0 → Type 0
StepOn S A = S → Result A × S

abbrev pub Action : Type 0 → Type 0
Action A = StepOn World A

infixl 5 ◌>>=◌ ◌>>◌
abbrev pub ◌>>=◌ : {S A B : Type 0} → StepOn S A → (A → StepOn S B) → StepOn S B
(act >>= next) w = let (r, w') = act w in elim r [ ok a ↦ next a w' | err e ↦ (err e, w') ]

abbrev pub ◌>>◌ : {S A B : Type 0} → StepOn S A → StepOn S B → StepOn S B
act >> next = act >>= λ ignored. next

abbrev pub lift : {S A : Type 0} → Result A → StepOn S A
lift r w = (r, w)

-- Frames are taken out until there is one of the wanted type, or none; `rest` goes on.
unfoldable pub keep_frame :
    ℕ → (FrameBuf → Option (List ℕ) × FrameBuf) → Outcome × FrameBuf → Option (List ℕ) × FrameBuf
keep_frame want rest (extracted frame, fb) =
    if frame.frame_type == want then (some frame.payload, fb) else rest fb
keep_frame want rest (absent, fb) = (none, fb)
keep_frame want rest (stuck, fb) = (none, fb)

unfoldable pub take_frame : ℕ → Bool → ℕ → FrameBuf → Option (List ℕ) × FrameBuf
unfolding keep_frame
take_frame zero memory want fb = (none, fb)
take_frame (suc fuel) memory want fb =
    keep_frame want (take_frame fuel memory want) (river2_framebuf_extract memory fb)

-- Whether the notification could be appended.
unfoldable pub after_append :
    (World → Result (List ℕ) × World) → World → Bool × FrameBuf → Result (List ℕ) × World
after_append rest w (true, fb) = rest (record w { fb = fb })
after_append rest w (false, fb) = (err no_mem, record w { fb = fb })

-- What the wait brought: `rest` is the loop's next round.
unfoldable pub after_wait :
    (World → Result (List ℕ) × World) → Result (List ℕ) → World → Result (List ℕ) × World
unfolding after_append
after_wait rest (ok chunk) w = after_append rest w (river2_framebuf_append w.memory w.fb chunk)
after_wait rest (err timeout) w = rest w
after_wait rest (err e) w = (err e, w)

-- Whether the deadline has passed.
unfoldable pub after_clock :
    (World → Result (List ℕ) × World) → World → Bool → Result (List ℕ) × World
after_clock rest w true = (err timeout, w)
after_clock rest w false = rest w

unfoldable pub wait_round : ℕ → (World → Result (List ℕ) × World) → World → Result (List ℕ) × World
unfolding take_frame
wait_round want otherwise w =
    let (taken, fb) = take_frame (suc (length w.fb.bytes)) w.memory want w.fb in
    let w' = record w { fb = fb } in
    elim taken [ some payload ↦ (ok payload, w') | none ↦ otherwise w' ]

-- The clock, and then the wait.
unfoldable pub wait_reading :
    ℕ → Reading → (World → Result (List ℕ) × World) → World → Result (List ℕ) × World
unfolding after_wait after_clock
wait_reading deadline reading rest w =
    after_clock (after_wait rest (wait_notification reading.received notify_chunk_max))
      (record w { clock = reading.now; memory = reading.memory }) (leb deadline reading.now)

-- The loop, with a reading for each round that waits.
unfoldable pub wait_loop : List Reading → ℕ → ℕ → World → Result (List ℕ) × World
unfolding wait_round wait_reading
wait_loop [] want deadline w = wait_round want (λ w'. (err timeout, w')) w
wait_loop (reading ∷ later) want deadline w =
    wait_round want
      (λ w'.
        wait_reading deadline reading (wait_loop later want deadline)
          (record w' { readings = later }))
      w

unfoldable pub wait_for_frame : ℕ → ℕ → Action (List ℕ)
unfolding wait_loop
wait_for_frame want timeout_ms w = wait_loop w.readings want (w.clock + timeout_ms * 1000) w

module _ (p : Platform) where
  unfoldable pub send_frame : ℕ → List ℕ → Action (Unit {0})
  send_frame frame_type payload w =
      let (frame_len, frame) = river2_outer_build frame_type payload (p.stack 600) 600 in
      if frame_len == 0
      then (err invalid_size, w)
      else let bytes = take frame_len frame in
        elim (p.ble_write w.sent bytes) [
          | err e ↦ (err e, w)
          | ok done ↦ (ok tt, record w { sent = w.sent ++ bytes ∷ [] })
        ]

  unfoldable pub send_inner_encrypted :
      Session → (src dst cmd_set cmd_id : ℕ) → List ℕ → Action (Unit {0})
  unfolding send_frame
  send_inner_encrypted cipher src dst cmd_set cmd_id payload w =
      let (inner_len, inner) =
        river2_inner_build src dst cmd_set cmd_id payload (p.stack 300) 300 in
      if inner_len == 0
      then (err invalid_size, w)
      else elim (aes_cbc_encrypt_pkcs7 p.psa cipher (take inner_len inner) 320) [
        | err e ↦ (err e, w)
        | ok encrypted ↦ send_frame river2_frame_data encrypted w
      ]

  unfoldable pub river2_send_command :
      Session → (dst cmd_set cmd_id : ℕ) → List ℕ → Action (Unit {0})
  unfolding send_inner_encrypted
  river2_send_command session dst cmd_set cmd_id payload =
      send_inner_encrypted session river2_addr_app dst cmd_set cmd_id payload

-- `pos`: the seed's second byte less one, as a byte. Neither summand is negative.
unfoldable pub lookup_position : ℕ → ℕ → ℕ
lookup_position seed0 seed1 = seed0 * 0x10 + (seed1 + 0x100 - 1) % 0x100 * 0x100

unfoldable pub derive_session_key : Psa → EcoflowConfig → List ℕ → List ℕ → Result (List ℕ)
unfolding lookup_position
derive_session_key psa cfg seed srand =
    let pos = lookup_position (get_or seed 0 0) (get_or seed 1 0) in
    if ltb (length cfg.lookup_table) (pos + 16)
    then err invalid_state
    else ok (river2_md5 psa (take 16 (drop pos cfg.lookup_table) ++ take 16 srand))

-- The names that a failed authentication is logged with; `none` is success.
pub data AuthError : Type 0 where
  need_refresh_token device_internal_error device_already_bound : AuthError
  need_bind_install_first app_send_data_error wrong_key : AuthError
  maximum_devices_error unknown_error : AuthError

unfoldable pub auth_error_name : ℕ → Option AuthError
auth_error_name code =
    if code == 0x00
    then none
    else if code == 0x01
    then some need_refresh_token
    else if code == 0x02
    then some device_internal_error
    else if code == 0x03
    then some device_already_bound
    else if code == 0x04
    then some need_bind_install_first
    else if code == 0x05
    then some app_send_data_error
    else if code == 0x06
    then some wrong_key
    else if code == 0x07
    then some maximum_devices_error
    else some unknown_error
