-- ===== src/Auth/Tests.antt =====
-- The handshake's parts at concrete readings.
use embed_beetroot_hw_2_7_pr.Prelude.{
  ℕ, ◌+◌, ◌-◌, ◌*◌, ◌≡◌, refl, arith, true, some, none, List, [], ◌∷◌, ◌++◌, replicate,
  length-replicate, take, drop, ok, err, invalid_state,
}
use embed_beetroot_hw_2_7_pr.Session.Sample.{plain_psa}
use embed_beetroot_hw_2_7_pr.Packet.Reassembly.{
  river2_framebuf_init, river2_framebuf_append, river2_framebuf_extract, extract_loop, scan,
  scan_frame, find_prefix, deliver,
}
use embed_beetroot_hw_2_7_pr.Config.{EcoflowConfig, lut_size}
use embed_beetroot_hw_2_7_pr.Auth.{
  World, derive_session_key, wait_for_frame, wait_loop, wait_round, wait_reading, take_frame,
  keep_frame, after_clock, after_wait, after_append,
}
use embed_beetroot_hw_2_7_pr.Ble.Calls.{wait_notification}
use embed_beetroot_hw_2_7_pr.Crc.{crc16}
use embed_beetroot_hw_2_7_pr.Packet.Words.{rd_u16le}
use embed_beetroot_hw_2_7_pr.Auth.Wait.{Finds, wait_for_frame-Finds}
use embed_beetroot_hw_2_7_pr.Auth.Key.{IsUsable, derive_session_key-IsUsable}
use embed_beetroot_hw_2_7_pr.Auth.Replies.{keep_waiting, pending, await_reply, incoming}
use embed_beetroot_hw_2_7_pr.Auth.Run.Fuel.{await_reply-fuel}

abbrev a_config : EcoflowConfig
a_config = record {
  ef_user = replicate 20 65;
  ef_mac = replicate 6 1;
  ef_serial = replicate 17 66;
  lookup_table = replicate lut_size 3;
}

derive_session_key-IsUsable_example :
    let key = derive_session_key plain_psa a_config (2 ∷ 1 ∷ []) (replicate 16 9) in
    (IsUsable 2 1
      → key
        ≡ ok (
            plain_psa.hash_compute_md5 (
              take 16 (drop (2 * 16 + (1 - 1) * 256) a_config.lookup_table)
              ++ take 16 (replicate 16 9))))
    × ((¬ IsUsable 2 1) → key ≡ err invalid_state)
derive_session_key-IsUsable_example =
    derive_session_key-IsUsable plain_psa a_config 2 1 (replicate 16 9)
      (length-replicate {A = ℕ} lut_size 3) (omega arith) (omega arith)

-- A notification that holds a byte of noise and a frame of type 1, after a wait with none.
abbrev noisy_frame : List ℕ
noisy_frame = 4 ∷ 90 ∷ 90 ∷ 16 ∷ 1 ∷ 5 ∷ 0 ∷ 90 ∷ 90 ∷ 9 ∷ 1 ∷ 69 ∷ []

abbrev a_world : World
a_world = record {
  fb = river2_framebuf_init;
  memory = true;
  clock = 0;
  readings =
      record { memory = true; now = 5; received = none }
      ∷ record { memory = true; now = 9; received = some noisy_frame }
      ∷ [];
  sent = [];
  contexts = 0;
}

abbrev after : World
after = (wait_for_frame 1 20000 a_world).1

a_world_waits : wait_for_frame 1 20000 a_world ≡ (ok (90 ∷ 90 ∷ 9 ∷ []), after)
unfolding wait_for_frame wait_loop wait_round wait_reading take_frame keep_frame after_clock
    after_wait after_append wait_notification river2_framebuf_init river2_framebuf_append
    river2_framebuf_extract extract_loop scan scan_frame find_prefix deliver rd_u16le crc16
a_world_waits = refl

wait_for_frame-Finds_example : Finds 1 a_world.fb.bytes a_world.readings (90 ∷ 90 ∷ 9 ∷ []) after
wait_for_frame-Finds_example =
    wait_for_frame-Finds 1 20000 a_world (90 ∷ 90 ∷ 9 ∷ []) after refl (refl, (refl, tt))
      a_world_waits

await_reply-fuel_example :
    await_reply 21 (λ reply. keep_waiting) a_world ≡ await_reply 500 (λ reply. keep_waiting) a_world
unfolding pending incoming river2_framebuf_init
await_reply-fuel_example =
    await_reply-fuel 21 500 (λ reply. keep_waiting) a_world (omega arith) (omega arith)
