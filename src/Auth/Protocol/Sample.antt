-- ===== src/Auth/Protocol/Sample.antt =====
-- A platform on which no call fails, and a device that keeps to the protocol, for the tests.
use embed_beetroot_hw_2_7_pr.Prelude.{
  ℕ, ◌+◌, refl, arith, true, some, List, [], ◌∷◌, ◌++◌, length, length-replicate, replicate, ok,
  IsBytes-replicate,
}
use embed_beetroot_hw_2_7_pr.Packet.Words.{river2_frame_command, river2_frame_data}
use embed_beetroot_hw_2_7_pr.Packet.Inner.{InnerPacket}
use embed_beetroot_hw_2_7_pr.Packet.Inner.Wire.{packet_of, app_bytes}
use embed_beetroot_hw_2_7_pr.Packet.Reassembly.{river2_framebuf_init}
use embed_beetroot_hw_2_7_pr.Packet.Reassembly.Frames.{Sent, wire}
use embed_beetroot_hw_2_7_pr.Session.Cbc.{pkcs7}
use embed_beetroot_hw_2_7_pr.Session.Sample.{plain_psa}
use embed_beetroot_hw_2_7_pr.Config.{EcoflowConfig, lut_size}
use embed_beetroot_hw_2_7_pr.Auth.{World, Reading, Platform}
use embed_beetroot_hw_2_7_pr.Auth.Protocol.Sending.{Works}
use embed_beetroot_hw_2_7_pr.Auth.Protocol.Hearing.{frame}
use embed_beetroot_hw_2_7_pr.Auth.Protocol.Device.{Digests}

abbrev pub a_platform : Platform
a_platform = record {
  psa = plain_psa;
  ecc = record {
    make_key = some (replicate 40 5, replicate 21 4);
    valid_public_key = λ key. true;
    shared_secret = λ peer priv. some (replicate 20 8);
  };
  ecdh_memory = true;
  stack = λ n. replicate n 0;
  ble_write = λ sent bytes. ok tt;
}

pub a_platform-Works : Works a_platform
a_platform-Works = record {
  arrays = λ n. length-replicate {A = ℕ} n 0;
  writes = λ sent bytes. refl;
}

pub a_platform-Digests : Digests plain_psa
a_platform-Digests = record {
  size = λ bytes. refl;
  are_bytes = λ bytes. IsBytes-replicate 16 7 (omega arith);
}

abbrev pub a_config : EcoflowConfig
a_config = record {
  ef_user = replicate 20 65;
  ef_mac = replicate 6 1;
  ef_serial = replicate 17 66;
  lookup_table = replicate lut_size 3;
}

abbrev pub a_serial : List ℕ
a_serial = replicate 16 66

abbrev pub a_secret : List ℕ
a_secret = replicate 20 8

-- An answer of the device with a command and a payload.
abbrev pub answer_of : ℕ → List ℕ → InnerPacket
answer_of cmd_id payload = record {
  src = 0x35;
  dst = 0x21;
  cmd_set = 0x35;
  cmd_id = cmd_id;
  payload = payload;
  payload_len = length payload;
}

abbrev pub inner_of : ℕ → List ℕ → List ℕ
inner_of cmd_id payload = packet_of app_bytes 0x35 0x21 0x35 cmd_id payload

abbrev pub data_sent : List ℕ → Sent
data_sent inner = record { noise = []; frame = frame river2_frame_data (pkcs7 inner) }

abbrev key_reply : List ℕ
key_reply = 0x01 ∷ 0x00 ∷ 0x00 ∷ replicate 40 6

abbrev seed_reply : List ℕ
seed_reply = 0x02 ∷ pkcs7 (replicate 16 9 ++ 2 ∷ 1 ∷ [])

abbrev pub said : List Sent
said =
    record { noise = 7 ∷ []; frame = frame river2_frame_data (3 ∷ []) }
    ∷ record { noise = []; frame = frame river2_frame_command key_reply }
    ∷ record { noise = []; frame = frame river2_frame_command seed_reply }
    ∷ data_sent (inner_of 0x89 [])
    ∷ data_sent (inner_of 0x86 (0 ∷ []))
    ∷ []

abbrev reading_of : Sent → ℕ → Reading
reading_of s now = record { memory = true; now = now; received = some (s.noise ++ wire s.frame) }

abbrev readings_of : List Sent → ℕ → List Reading
readings_of [] now = []
readings_of (s ∷ sent) now = reading_of s now ∷ readings_of sent (now + 100)

abbrev pub talk_world : World
talk_world = record {
  fb = river2_framebuf_init;
  memory = true;
  clock = 10;
  readings = readings_of said 20;
  sent = [];
  contexts = 0;
}
