-- ===== src/Telemetry/Tests.antt =====
-- The telemetry handler on concrete heartbeats.
use embed_beetroot_hw_2_7_pr.Prelude.{
  ℕ, List, [], ◌∷◌, ◌++◌, replicate, ◌*◌, ◌≡◌, ◌<◌, refl, sym, subst, arith, true, take, drop,
  length, length-append, length-replicate, IsBytes, IsBytes-append, IsBytes-replicate, Result, ok,
  err, timeout,
}
use mathlib.Core.List.{flatten}
use embed_beetroot_hw_2_7_pr.Packet.Words.{river2_frame_data}
use embed_beetroot_hw_2_7_pr.Packet.Inner.Wire.{
  packet_of, app_bytes, packet_of-IsBytes, length-packet_of,
}
use embed_beetroot_hw_2_7_pr.Packet.Inner.RoundTrip.{river2_inner_parse-packet_of}
use embed_beetroot_hw_2_7_pr.Packet.Reassembly.Chunks.{frames_in}
use embed_beetroot_hw_2_7_pr.Packet.Reassembly.Frames.{Sent, IsSendable, AreSendable, on_air}
use embed_beetroot_hw_2_7_pr.Session.Cbc.{pkcs7, pkcs7_pad}
use embed_beetroot_hw_2_7_pr.Session.Sample.{
  plain_psa, same_blocks, plain_psa-IsCbc, a_session, a_session-IsSession,
}
use embed_beetroot_hw_2_7_pr.Packet.Inner.{InnerPacket}
use embed_beetroot_hw_2_7_pr.Telemetry.{
  telemetry_init, handle_packet, TelemetryCtx, Poll, telemetry_task,
}
use embed_beetroot_hw_2_7_pr.Telemetry.Values.{values}
use embed_beetroot_hw_2_7_pr.Telemetry.Stream.{chunks_of}
use embed_beetroot_hw_2_7_pr.Telemetry.Protocol.{
  AreAssigned, observe_all, telemetry_task-observe_all,
}
use embed_beetroot_hw_2_7_pr.Telemetry.Arrival.{
  Report, AreTabled, sent_of, sent-AreAssigned, heard, telemetry_task-observe_packets,
}
use embed_beetroot_hw_2_7_pr.Telemetry.Edges.{Told, handle_packet-Told}
use embed_beetroot_hw_2_7_pr.Telemetry.Throttle.{IsSpaced, battery_times, battery_times-IsSpaced}

-- The MPPT heartbeat with the DC output on and the AC output off.
abbrev mppt_heartbeat : InnerPacket
mppt_heartbeat = record {
  src = 0x05;
  dst = 0x21;
  cmd_set = 0x20;
  cmd_id = 0x02;
  payload = replicate 56 0 ++ 1 ∷ replicate 14 0;
  payload_len = 71;
}

abbrev pd_heartbeat : InnerPacket
pd_heartbeat = record {
  src = 0x02;
  dst = 0x21;
  cmd_set = 0x20;
  cmd_id = 0x02;
  payload = replicate 14 0 ++ 87 ∷ [];
  payload_len = 15;
}

handle_packet-Told_example :
    Told 60000 5 telemetry_init (handle_packet 60000 5 mppt_heartbeat telemetry_init)
handle_packet-Told_example = handle_packet-Told 60000 5 mppt_heartbeat telemetry_init

abbrev heartbeats : List (ℕ × InnerPacket)
heartbeats = (5, pd_heartbeat) ∷ (900, pd_heartbeat) ∷ (70000000, pd_heartbeat) ∷ []

battery_times-IsSpaced_example :
    IsSpaced
      (60000 * 1000)
      telemetry_init.next_notify_us
      (battery_times 60000 heartbeats telemetry_init)
battery_times-IsSpaced_example = battery_times-IsSpaced 60000 heartbeats telemetry_init

-- The two heartbeats as the device sends them, with noise before the second, each in two
-- notifications, and a wait that runs out.
abbrev inner_of : InnerPacket → List ℕ
inner_of pkt = packet_of app_bytes pkt.src pkt.dst pkt.cmd_set pkt.cmd_id pkt.payload

abbrev pd_report : Report
pd_report = record {
  noise = [];
  inner = inner_of pd_heartbeat;
  packet = pd_heartbeat;
  parsed =
      river2_inner_parse-packet_of app_bytes 0x02 0x21 0x20 0x02 pd_heartbeat.payload refl
        (omega arith) (omega arith) (omega arith) (omega arith);
  fits = omega (arith, length-packet_of 0x02 0x21 0x20 0x02 pd_heartbeat.payload);
}

abbrev mppt_report : Report
mppt_report = record {
  noise = 9 ∷ 8 ∷ [];
  inner = inner_of mppt_heartbeat;
  packet = mppt_heartbeat;
  parsed =
      river2_inner_parse-packet_of app_bytes 0x05 0x21 0x20 0x02 mppt_heartbeat.payload refl
        (omega arith) (omega arith) (omega arith) (omega arith);
  fits = omega (arith, length-packet_of 0x05 0x21 0x20 0x02 mppt_heartbeat.payload);
}

abbrev reports : List Report
reports = pd_report ∷ mppt_report ∷ []

abbrev a_ctx : TelemetryCtx
a_ctx = record { session = a_session; interval_ms = 60000 }

abbrev stream_sent : List Sent
stream_sent =
    sent_of plain_psa a_ctx [] same_blocks same_blocks plain_psa-IsCbc a_session-IsSession reports

sealed-IsSendable :
    (src : ℕ) (payload : List ℕ)
    → src < 256
    → IsBytes payload
    → length payload < 100
    → IsSendable (record {
      frame_type = river2_frame_data;
      payload = pkcs7 (packet_of app_bytes src 0x21 0x20 0x02 payload);
    })
sealed-IsSendable src payload hs hp hn =
    let inner = packet_of app_bytes src 0x21 0x20 0x02 payload in
    let pad = pkcs7_pad (length inner) in
    record {
      type_fits = omega arith;
      payload_bytes =
          IsBytes-append inner (replicate pad pad)
            (packet_of-IsBytes src 0x21 0x20 0x02 payload (omega (arith, hs)) hp (omega arith))
            (IsBytes-replicate pad pad (omega arith));
      payload_fits = omega (
        arith,
        length-append inner (replicate pad pad),
        length-replicate pad pad,
        length-packet_of src 0x21 0x20 0x02 payload,
      );
    }

abbrev poll_of : ℕ → Result (List ℕ) → Poll
poll_of now_us received = record { memory = true; now_us = now_us; stack = []; received = received }

abbrev polls : List Poll
polls =
    poll_of 5 (ok (take 11 (on_air stream_sent)))
    ∷ poll_of 6 (err timeout)
    ∷ poll_of 9 (ok (drop 11 (on_air stream_sent)))
    ∷ []

polls-flatten : flatten (chunks_of polls) ≡ on_air stream_sent
unfolding flatten
polls-flatten = refl

stream_sent-AreSendable : AreSendable stream_sent
stream_sent-AreSendable = (
  tt,
  sealed-IsSendable 0x02 pd_heartbeat.payload (omega arith) (omega arith) (omega arith),
  (
    omega arith,
    sealed-IsSendable 0x05 mppt_heartbeat.payload (omega arith) (omega arith) (omega arith),
    tt,
  ),
)

reports-AreTabled : AreTabled reports
reports-AreTabled = ((λ command board. refl), ((λ command board. refl), tt))

telemetry_task-observe_all_example :
    values (telemetry_task plain_psa a_ctx polls)
    ≡ observe_all plain_psa a_ctx []
        (frames_in (flatten (chunks_of polls))).0
        (record { battery_percent = 255; dc_out_state = 255; ac_enabled = 255 })
telemetry_task-observe_all_example =
    telemetry_task-observe_all plain_psa a_ctx [] polls (refl, refl, (refl, refl, (refl, refl, tt)))
      (subst (AreAssigned plain_psa a_ctx [])
        (sym (
          heard plain_psa a_ctx [] same_blocks same_blocks plain_psa-IsCbc a_session-IsSession
            reports polls stream_sent-AreSendable polls-flatten))
        (sent-AreAssigned plain_psa a_ctx [] same_blocks same_blocks plain_psa-IsCbc
          a_session-IsSession reports reports-AreTabled))

-- The battery level of the first and the states of the second.
telemetry_task-observe_packets_example :
    values (telemetry_task plain_psa a_ctx polls)
    ≡ record { battery_percent = 87; dc_out_state = 1; ac_enabled = 0 }
telemetry_task-observe_packets_example =
    telemetry_task-observe_packets plain_psa a_ctx [] same_blocks same_blocks plain_psa-IsCbc
      a_session-IsSession reports polls stream_sent-AreSendable reports-AreTabled
      (refl, refl, (refl, refl, (refl, refl, tt))) polls-flatten
