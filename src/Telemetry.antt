-- ===== src/Telemetry.antt =====
-- main/src/river2_telemetry.c: the task that decodes heartbeats, and the values that it keeps for
-- the owner task. An `int8_t` is its byte, so that -1 is 255.
pub mod Edges
pub mod Throttle
pub mod Values
pub mod Stream
pub mod Protocol
pub mod Arrival
mod Tests
use embed_beetroot_hw_2_7_pr.Prelude.{
  ℕ, zero, suc, ◌+◌, ◌*◌, Bool, true, false, not, ◌&&◌, List, [], ◌∷◌, ◌++◌, bit_or, ltb, leb, ◌==◌,
  if◌then◌else◌, length, get_or, Option, none, some, Result, ok, err, no_mem,
}
use embed_beetroot_hw_2_7_pr.Packet.Words.{
  river2_frame_data, river2_addr_pd, river2_addr_mppt, river2_cmdset_heartbeat,
  river2_cmdid_heartbeat,
}
use embed_beetroot_hw_2_7_pr.Packet.Inner.{InnerPacket, river2_inner_parse}
use embed_beetroot_hw_2_7_pr.Packet.Reassembly.{
  FrameBuf, Frame, Outcome, extracted, absent, stuck, river2_framebuf_init, river2_framebuf_append,
  river2_framebuf_extract,
}
use embed_beetroot_hw_2_7_pr.Session.{Psa, Session, river2_session_decrypt}

abbrev pub evt_battery_level : ℕ
evt_battery_level = 16

abbrev pub evt_dc_state : ℕ
evt_dc_state = 128

abbrev pub evt_ac_state : ℕ
evt_ac_state = 256

abbrev pub pd_soc_offset : ℕ
pd_soc_offset = 14

abbrev pub mppt_cfg_ac_enabled_offset : ℕ
mppt_cfg_ac_enabled_offset = 66

abbrev pub mppt_car_state_offset : ℕ
mppt_car_state_offset = 56

-- The statics and the locals of the task, and the bits that it has sent to the owner, the latest
-- first.
pub record Telemetry : Type 0 where
  pub fb : FrameBuf
  pub battery_percent : ℕ
  pub dc_out_state : ℕ
  pub ac_enabled : ℕ
  pub next_notify_us : ℕ
  pub notified : List ℕ

unfoldable pub telemetry_init : Telemetry
telemetry_init = record {
  fb = river2_framebuf_init;
  battery_percent = 255;
  dc_out_state = 255;
  ac_enabled = 255;
  next_notify_us = 0;
  notified = [];
}

-- The branch of the PD heartbeat; the bits to send.
unfoldable pub battery_update : ℕ → ℕ → InnerPacket → Telemetry → ℕ × Telemetry
battery_update interval_ms now_us pkt s =
    if ltb pd_soc_offset pkt.payload_len
    then (let s1 = record s { battery_percent = get_or pkt.payload pd_soc_offset 0 } in
        if leb s1.next_notify_us now_us
        then (evt_battery_level, record s1 { next_notify_us = now_us + interval_ms * 1000 })
        else (0, s1))
    else (0, s)

unfoldable pub ac_update : InnerPacket → Telemetry → ℕ × Telemetry
ac_update pkt s =
    let value = get_or pkt.payload mppt_cfg_ac_enabled_offset 0 in
    if ltb mppt_cfg_ac_enabled_offset pkt.payload_len && not (value == s.ac_enabled)
    then (evt_ac_state, record s { ac_enabled = value })
    else (0, s)

unfoldable pub dc_update : InnerPacket → Telemetry → ℕ × Telemetry
dc_update pkt s =
    let value = get_or pkt.payload mppt_car_state_offset 0 in
    if ltb mppt_car_state_offset pkt.payload_len && not (value == s.dc_out_state)
    then (evt_dc_state, record s { dc_out_state = value })
    else (0, s)

-- `xTaskNotify` of the bits, unless there are none.
unfoldable pub notify_bits : ℕ × Telemetry → Telemetry
notify_bits (bits, s) = if bits == 0 then s else record s { notified = bits ∷ s.notified }

-- What is done with a packet that was parsed; `now_us` is what `esp_timer_get_time` returns.
unfoldable pub handle_packet : ℕ → ℕ → InnerPacket → Telemetry → Telemetry
unfolding battery_update ac_update dc_update notify_bits
handle_packet interval_ms now_us pkt s =
    if not (pkt.cmd_id == river2_cmdid_heartbeat)
    then s
    else if pkt.src == river2_addr_pd && pkt.cmd_set == river2_cmdset_heartbeat
    then notify_bits (battery_update interval_ms now_us pkt s)
    else if pkt.src == river2_addr_mppt
    then (let (ac_bit, s1) = ac_update pkt s in
        let (dc_bit, s2) = dc_update pkt s1 in notify_bits (bit_or ac_bit dc_bit, s2))
    else s

-- `telemetry_ctx_t` without the owner, who is told through `notified`.
pub record TelemetryCtx : Type 0 where
  pub session : Session
  pub interval_ms : ℕ

module _ (psa : Psa) (ctx : TelemetryCtx) where
  -- The body of the inner loop, on a frame that was extracted.
  unfoldable pub handle_frame : ℕ → List ℕ → Frame → Telemetry → Telemetry
  unfolding handle_packet
  handle_frame now_us stack frame s =
      if not (frame.frame_type == river2_frame_data)
      then s
      else elim (river2_session_decrypt psa ctx.session frame.payload stack 256) [
        | err e ↦ s
        | ok decrypted ↦ elim (river2_inner_parse decrypted) [
          | none ↦ s
          | some pkt ↦ handle_packet ctx.interval_ms now_us pkt s
        ]
      ]

  unfoldable pub next_extracted :
      (Telemetry → Telemetry) → ℕ → List ℕ → Telemetry → Outcome × FrameBuf → Telemetry
  unfolding handle_frame
  next_extracted rest now_us stack s (extracted frame, fb) =
      rest (handle_frame now_us stack frame (record s { fb = fb }))
  next_extracted rest now_us stack s (absent, fb) = record s { fb = fb }
  next_extracted rest now_us stack s (stuck, fb) = record s { fb = fb }

  unfoldable pub handle_frames : ℕ → Bool → ℕ → List ℕ → Telemetry → Telemetry
  unfolding next_extracted
  handle_frames zero memory now_us stack s = s
  handle_frames (suc fuel) memory now_us stack s =
      next_extracted (handle_frames fuel memory now_us stack) now_us stack s
        (river2_framebuf_extract memory s.fb)

  -- A round of the outer loop, on what the wait for a notification returned. The clock stands
  -- still in a round.
  unfoldable pub telemetry_round : Bool → ℕ → List ℕ → Result (List ℕ) → Telemetry → Telemetry
  unfolding handle_frames
  telemetry_round memory now_us stack (err e) s = s
  telemetry_round memory now_us stack (ok chunk) s =
      let (done, fb) = river2_framebuf_append memory s.fb chunk in
      let s1 = record s { fb = fb } in
      elim done [ false ↦ s1 | true ↦ handle_frames (suc (length fb.bytes)) memory now_us stack s1 ]

-- The outer loop, on what each of its rounds finds: whether memory can be had, the clock, what the
-- array `decrypted` holds at first, and what the wait returned.
pub record Poll : Type 0 where
  pub memory : Bool
  pub now_us : ℕ
  pub stack : List ℕ
  pub received : Result (List ℕ)

unfoldable pub telemetry_loop : Psa → TelemetryCtx → List Poll → Telemetry → Telemetry
unfolding telemetry_round
telemetry_loop psa ctx [] s = s
telemetry_loop psa ctx (poll ∷ polls) s =
    telemetry_loop psa ctx polls
      (telemetry_round psa ctx poll.memory poll.now_us poll.stack poll.received s)

unfoldable pub telemetry_task : Psa → TelemetryCtx → List Poll → Telemetry
unfolding telemetry_init telemetry_loop
telemetry_task psa ctx polls = telemetry_loop psa ctx polls telemetry_init

-- Whether `malloc` and `xTaskCreate` succeed; the context that the task is created with.
unfoldable pub river2_telemetry_start : Bool → Bool → Session → ℕ → Result TelemetryCtx
river2_telemetry_start memory is_created session interval_ms =
    if not memory
    then err no_mem
    else if not is_created
    then err no_mem
    else ok (record { session = session; interval_ms = interval_ms })

unfoldable pub river2_telemetry_battery_percent : Telemetry → ℕ
river2_telemetry_battery_percent s = s.battery_percent

unfoldable pub river2_telemetry_dc_out_state : Telemetry → ℕ
river2_telemetry_dc_out_state s = s.dc_out_state

unfoldable pub river2_telemetry_ac_enabled : Telemetry → ℕ
river2_telemetry_ac_enabled s = s.ac_enabled
