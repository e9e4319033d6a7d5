-- ===== src/Telemetry/Protocol.antt =====
-- The values that the protocol gives for the packets in a stream: RIVER2_PRO_PROTOCOL.md tells the
-- heartbeats apart by source, command set and command. The code does not test the command set of
-- the MPPT heartbeat, so the packets must keep to the document's table.
use embed_beetroot_hw_2_7_pr.Prelude.{
  ℕ, ◌≡◌, refl, ap, ◌∙◌, Bool, Bool-cases, inl, inr, true, ◌&&◌, ◌==◌, ==_iff, Option, none, some,
  List, [], ◌∷◌,
}
use mathlib.Core.List.{flatten}
use embed_beetroot_hw_2_7_pr.Packet.Inner.{InnerPacket}
use embed_beetroot_hw_2_7_pr.Packet.Reassembly.{Frame}
use embed_beetroot_hw_2_7_pr.Packet.Reassembly.Chunks.{frames_in}
use embed_beetroot_hw_2_7_pr.Session.{Psa}
use embed_beetroot_hw_2_7_pr.Telemetry.{TelemetryCtx, Poll, telemetry_task}
use embed_beetroot_hw_2_7_pr.Telemetry.Values.{
  Values, values, byte_or, is_from_mppt, decode, heed, heed_if,
}
use embed_beetroot_hw_2_7_pr.Telemetry.Stream.{
  heed_all, AreAlike, chunks_of, telemetry_task-heed_all,
}

abbrev pub is_heartbeat : ℕ → InnerPacket → Bool
is_heartbeat src pkt = pkt.cmd_id == 0x02 && (pkt.src == src && pkt.cmd_set == 0x20)

-- The PD heartbeat has the battery level, the MPPT heartbeat the states of the two outputs.
abbrev pub observe : InnerPacket → Values → Values
observe pkt v = record {
  battery_percent = byte_or (is_heartbeat 0x02 pkt) pkt 14 v.battery_percent;
  dc_out_state = byte_or (is_heartbeat 0x05 pkt) pkt 56 v.dc_out_state;
  ac_enabled = byte_or (is_heartbeat 0x05 pkt) pkt 66 v.ac_enabled;
}

abbrev pub observe_if : Option InnerPacket → Values → Values
observe_if none v = v
observe_if (some pkt) v = observe pkt v

-- What the table says of command 0x02 of the MPPT board: it has command set 0x20.
abbrev pub IsAssigned : InnerPacket → Type 0
IsAssigned pkt = pkt.cmd_id ≡ 0x02 → pkt.src ≡ 0x05 → pkt.cmd_set ≡ 0x20

abbrev pub IsAssignedIf : Option InnerPacket → Type 0
IsAssignedIf none = Unit
IsAssignedIf (some pkt) = IsAssigned pkt

from_mppt : (pkt : InnerPacket) → IsAssigned pkt → is_from_mppt pkt ≡ is_heartbeat 0x05 pkt
from_mppt pkt assigned = elim (Bool-cases (pkt.cmd_id == 0x02)) [
  | inr other ↦ rw other refl
  | inl command ↦ elim (Bool-cases (pkt.src == 0x05)) [
    | inr other ↦ rw (command, other) refl
    | inl board ↦
        let set : (pkt.cmd_set == 0x20) ≡ true =
          (==_iff pkt.cmd_set 0x20).1
            (assigned ((==_iff pkt.cmd_id 0x02).0 command) ((==_iff pkt.src 0x05).0 board)) in
        rw (command, board, set) refl
  ]
]

pub heed-observe : (pkt : InnerPacket) (v : Values) → IsAssigned pkt → heed pkt v ≡ observe pkt v
heed-observe pkt v assigned =
    ap
      (λ (b : Bool).
        let w : Values = record {
          battery_percent = byte_or (is_heartbeat 0x02 pkt) pkt 14 v.battery_percent;
          dc_out_state = byte_or b pkt 56 v.dc_out_state;
          ac_enabled = byte_or b pkt 66 v.ac_enabled;
        } in
        w)
      (from_mppt pkt assigned)

heed_if-observe :
    (o : Option InnerPacket) (v : Values) → IsAssignedIf o → heed_if o v ≡ observe_if o v
heed_if-observe none v assigned = refl
heed_if-observe (some pkt) v assigned = heed-observe pkt v assigned

module _ (psa : Psa) (ctx : TelemetryCtx) (stack : List ℕ) where
  -- The packets in the frames, one after the other.
  abbrev pub observe_all : List Frame → Values → Values
  observe_all [] v = v
  observe_all (frame ∷ frames) v = observe_all frames (observe_if (decode psa ctx stack frame) v)

  abbrev pub AreAssigned : List Frame → Type 0
  AreAssigned [] = Unit
  AreAssigned (frame ∷ frames) = IsAssignedIf (decode psa ctx stack frame) × AreAssigned frames

  heed_all-observe :
      (frames : List Frame) (v : Values)
      → AreAssigned frames
      → heed_all psa ctx stack frames v ≡ observe_all frames v
  heed_all-observe [] v assigned = refl
  heed_all-observe (frame ∷ frames) v assigned =
      ap (heed_all psa ctx stack frames) (heed_if-observe (decode psa ctx stack frame) v assigned.0)
      ∙ heed_all-observe frames (observe_if (decode psa ctx stack frame) v) assigned.1

  -- When memory can be had, the array that is decrypted into holds the same before each decryption,
  -- and the MPPT board sends its command 0x02 with command set 0x20 only: whatever the clock says,
  -- the values that the task keeps are those that the protocol gives for the packets in the stream
  -- of notifications, one after the other, however the stream is split and however many waits run
  -- out.
  pub telemetry_task-observe_all :
      (polls : List Poll)
      → AreAlike psa ctx stack polls
      → AreAssigned (frames_in (flatten (chunks_of polls))).0
      → values (telemetry_task psa ctx polls)
        ≡ observe_all
            (frames_in (flatten (chunks_of polls))).0
            (record { battery_percent = 255; dc_out_state = 255; ac_enabled = 255 })
  telemetry_task-observe_all polls alike assigned =
      telemetry_task-heed_all psa ctx stack polls alike
      ∙ heed_all-observe (frames_in (flatten (chunks_of polls))).0 _ assigned
