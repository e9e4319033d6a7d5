-- ===== src/Auth/Protocol/Talk.antt =====
-- The device of the sample keeps to the protocol, and what it sends comes in time.
use embed_beetroot_hw_2_7_pr.Prelude.{
  ℕ, ◌+◌, ◌≤◌, ◌≡◌, refl, ap, arith, List, [], ◌∷◌, length, length-replicate, replicate, IsBytes,
  IsBytes-append, IsBytes-replicate, ◌<◌, length-append, ◌∙◌,
}
use embed_beetroot_hw_2_7_pr.Packet.Words.{river2_frame_data}
use embed_beetroot_hw_2_7_pr.Packet.Inner.Wire.{app_bytes, packet_of-IsBytes, length-packet_of}
use embed_beetroot_hw_2_7_pr.Packet.Inner.RoundTrip.{river2_inner_parse-packet_of}
use embed_beetroot_hw_2_7_pr.Packet.Reassembly.Chunks.{frames_in}
use embed_beetroot_hw_2_7_pr.Packet.Reassembly.Frames.{
  IsSendable, AreSendable, on_air, frames_in-on_air,
}
use embed_beetroot_hw_2_7_pr.Session.Cbc.{pkcs7_pad}
use embed_beetroot_hw_2_7_pr.Session.Sample.{same_blocks}
use embed_beetroot_hw_2_7_pr.Config.{lut_size, user_id_size}
use embed_beetroot_hw_2_7_pr.Ble.Calls.{wait_notification}
use embed_beetroot_hw_2_7_pr.Auth.Taking.{stream}
use embed_beetroot_hw_2_7_pr.Auth.Run.{strnlen, dev_pub_size}
use embed_beetroot_hw_2_7_pr.Auth.Replies.{is_status_reply, is_auth_reply}
use embed_beetroot_hw_2_7_pr.Auth.Protocol.Follows.{IsInTime}
use embed_beetroot_hw_2_7_pr.Auth.Protocol.Hearing.{frame}
use embed_beetroot_hw_2_7_pr.Auth.Protocol.Conversation.{Packed, Talks}
use embed_beetroot_hw_2_7_pr.Auth.Protocol.Sample.{
  a_platform, a_config, a_serial, a_secret, answer_of, inner_of, data_sent, said, talk_world,
}

pub talk_world-IsInTime : IsInTime 10 talk_world
talk_world-IsInTime = record {
  memory = refl;
  started = omega arith;
  coming = (
    refl,
    omega arith,
    omega arith,
    (
      refl,
      omega arith,
      omega arith,
      (
        refl,
        omega arith,
        omega arith,
        (refl, omega arith, omega arith, (refl, omega arith, omega arith, tt)),
      ),
    ),
  );
}

talk_order : stream talk_world.readings ≡ on_air said
unfolding wait_notification
talk_order = refl

data_sent-IsSendable :
    (cmd_id : ℕ) (payload : List ℕ)
    → cmd_id < 256
    → IsBytes payload
    → length payload < 2
    → IsSendable ((data_sent (inner_of cmd_id payload)).frame)
data_sent-IsSendable cmd_id payload hc hp hn =
    let inner = inner_of cmd_id payload in
    let pad = pkcs7_pad (length inner) in
    record {
      type_fits = omega arith;
      payload_bytes =
          IsBytes-append inner (replicate pad pad)
            (packet_of-IsBytes 0x35 0x21 0x35 cmd_id payload (omega (arith, hc)) hp (omega arith))
            (IsBytes-replicate pad pad (omega arith));
      payload_fits = omega (
        arith,
        length-append inner (replicate pad pad),
        length-replicate pad pad,
        length-packet_of 0x35 0x21 0x35 cmd_id payload,
      );
    }

said-AreSendable : AreSendable said
said-AreSendable = (
  (omega arith),
  (record { type_fits = omega arith; payload_bytes = omega arith; payload_fits = omega arith }),
  (
    (tt),
    (record { type_fits = omega arith; payload_bytes = omega arith; payload_fits = omega arith }),
    (
      tt,
      (record { type_fits = omega arith; payload_bytes = omega arith; payload_fits = omega arith }),
      (
        tt,
        data_sent-IsSendable 0x89 [] (omega arith) tt (omega arith),
        (tt, data_sent-IsSendable 0x86 (0 ∷ []) (omega arith) (omega arith) (omega arith), tt),
      ),
    ),
  ),
)

abbrev packed_answer :
    (cmd_id : ℕ) (payload : List ℕ)
    → cmd_id < 256
    → IsBytes payload
    → length payload < 2
    → Packed (answer_of cmd_id payload)
packed_answer cmd_id payload hc hp hn = record {
  inner = inner_of cmd_id payload;
  parsed =
      river2_inner_parse-packet_of app_bytes 0x35 0x21 0x35 cmd_id payload refl (omega arith)
        (omega (arith, hc)) hp (omega arith);
  fits = omega (arith, length-packet_of 0x35 0x21 0x35 cmd_id payload);
}

pub said-Talks :
    Talks a_platform same_blocks a_config
      (replicate 40 5)
      a_secret
      2
      1
      (replicate 16 9)
      (frames_in (stream talk_world.readings)).0
unfolding dev_pub_size is_status_reply is_auth_reply
said-Talks = record {
  dev_pub = replicate 40 6;
  keys = record {
    priv = replicate 21 4;
    have_memory = refl;
    made = refl;
    our_bytes = omega arith;
    our_size = refl;
    dev_size = refl;
    valid = refl;
    agreed = refl;
    secret_size = omega arith;
  };
  unused = 0;
  curve = 0;
  known_curve = refl;
  seeds = record {
    table_size = length-replicate {A = ℕ} lut_size 3;
    seed0_byte = omega arith;
    seed1_byte = omega arith;
    usable = omega arith;
    srand_size = refl;
  };
  status = answer_of 0x89 [];
  status_packed = packed_answer 0x89 [] (omega arith) tt (omega arith);
  is_status = refl;
  auth = answer_of 0x86 (0 ∷ []);
  auth_packed = packed_answer 0x86 (0 ∷ []) (omega arith) (omega arith) (omega arith);
  is_auth = refl;
  auth_len = refl;
  accepted = refl;
  before_key = frame river2_frame_data (3 ∷ []) ∷ [];
  before_seed = [];
  before_status = [];
  before_auth = [];
  later = [];
  key_first = omega arith;
  seed_first = tt;
  status_first = tt;
  auth_first = tt;
  order = ap (λ r. r.0) (ap frames_in talk_order ∙ frames_in-on_air said said-AreSendable);
}

pub short_id : strnlen a_config.ef_user user_id_size + length a_serial ≤ user_id_size + 20
unfolding strnlen
short_id = omega arith
