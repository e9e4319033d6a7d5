-- ===== src/Commands/Tests.antt =====
-- A command through every layer, on a platform where nothing fails.
use embed_beetroot_hw_2_7_pr.Prelude.{
  ℕ, ◌≡◌, refl, arith, true, false, List, [], ◌∷◌, ◌++◌, replicate, length-replicate, ok, none,
  if◌then◌else◌,
}
use embed_beetroot_hw_2_7_pr.Packet.Reassembly.{river2_framebuf_init}
use embed_beetroot_hw_2_7_pr.Session.Sample.{
  plain_psa, same_blocks, plain_psa-IsCbc, a_session, a_session-IsSession,
}
use embed_beetroot_hw_2_7_pr.Auth.{World, Platform, river2_send_command}
use embed_beetroot_hw_2_7_pr.Commands.{river2_set_ac_output, river2_set_dc_output}
use embed_beetroot_hw_2_7_pr.Auth.Protocol.Sending.{Brings, Works}
use embed_beetroot_hw_2_7_pr.Commands.Refused.{IsSentOver, river2_send_command-IsSentOver}
use embed_beetroot_hw_2_7_pr.Ble.{Ble, idle}
use embed_beetroot_hw_2_7_pr.Ble.Calls.{river2_ble_write}
use embed_beetroot_hw_2_7_pr.Commands.Arrival.{river2_send_command-Brings, river2_set_output-Brings}

abbrev a_platform : Platform
a_platform = record {
  psa = plain_psa;
  ecc = record {
    make_key = none;
    valid_public_key = λ key. true;
    shared_secret = λ peer priv. none;
  };
  ecdh_memory = true;
  stack = λ n. replicate n 0xA5;
  ble_write = λ sent bytes. ok tt;
}

a_platform-Works : Works a_platform
a_platform-Works = record { arrays = λ n. length-replicate n 0xA5; writes = λ sent bytes. refl }

abbrev a_world : World
a_world = record {
  fb = river2_framebuf_init;
  memory = true;
  clock = 0;
  readings = [];
  sent = [];
  contexts = 0;
}

river2_send_command-Brings_example :
    (bytes : List ℕ) × (river2_send_command a_platform a_session 0x05 0x20 0x51 (1 ∷ []) a_world
      ≡ (ok tt, record a_world { sent = [] ++ bytes ∷ [] }))
    × Brings a_platform a_session bytes (record {
      src = 0x21;
      dst = 0x05;
      cmd_set = 0x20;
      cmd_id = 0x51;
      payload = 1 ∷ [];
      payload_len = 1;
    })
river2_send_command-Brings_example =
    river2_send_command-Brings a_platform a_platform-Works same_blocks same_blocks plain_psa-IsCbc
      a_session a_session-IsSession 0x05 0x20 0x51 (1 ∷ []) a_world (omega arith) (omega arith)
      (omega arith)

river2_set_output-Brings_example :
    ((bytes : List ℕ) × (river2_set_ac_output a_platform a_session true a_world
        ≡ (ok tt, record a_world { sent = [] ++ bytes ∷ [] }))
      × Brings a_platform a_session bytes (record {
        src = 0x21;
        dst = 0x05;
        cmd_set = 0x20;
        cmd_id = 0x42;
        payload = (if true then 1 else 0) ∷ replicate 6 0xFF;
        payload_len = 7;
      }))
    × ((bytes : List ℕ) × (river2_set_dc_output a_platform a_session true a_world
          ≡ (ok tt, record a_world { sent = [] ++ bytes ∷ [] }))
        × Brings a_platform a_session bytes (record {
          src = 0x21;
          dst = 0x05;
          cmd_set = 0x20;
          cmd_id = 0x51;
          payload = (if true then 1 else 0) ∷ [];
          payload_len = 1;
        }))
river2_set_output-Brings_example =
    river2_set_output-Brings a_platform a_platform-Works same_blocks same_blocks plain_psa-IsCbc
      a_session a_session-IsSession true a_world

abbrev a_client : Ble
a_client = record {
  conn_handle = 0;
  write_handle = 8;
  notify_handle = 10;
  notify_svc_end = 20;
  cccd_found = true;
  services = [];
  service_idx = 0;
  queue = [];
  posted = [];
  running = idle;
  is_subscribing = false;
}

takes :
    (sent : List (List ℕ)) (bytes : List ℕ)
    → a_platform.ble_write sent bytes ≡ river2_ble_write 0 a_client
unfolding river2_ble_write
takes sent bytes = refl

river2_send_command-IsSentOver_example :
    IsSentOver 0 a_client a_world
      (river2_send_command a_platform a_session 0x05 0x20 0x51 (1 ∷ []) a_world)
river2_send_command-IsSentOver_example =
    river2_send_command-IsSentOver a_platform 0 a_client a_session 0x05 0x20 0x51 (1 ∷ []) a_world
      takes
