-- ===== src/Telemetry/Arrival.antt =====
-- The values that the owner reads, against the packets that the device sent.
use embed_beetroot_hw_2_7_pr.Prelude.{
  ℕ, ◌≤◌, ◌≡◌, refl, ap, sym, subst, ◌∙◌, arith, List, [], ◌∷◌, Option, none, some, length, Result,
  ok, err,
}
use mathlib.Core.List.{flatten}
use embed_beetroot_hw_2_7_pr.Packet.Words.{river2_frame_data}
use embed_beetroot_hw_2_7_pr.Packet.Inner.{InnerPacket, river2_inner_parse}
use embed_beetroot_hw_2_7_pr.Packet.Reassembly.Chunks.{frames_in}
use embed_beetroot_hw_2_7_pr.Packet.Reassembly.Frames.{
  Sent, AreSendable, on_air, frames_of, frames_in-on_air,
}
use embed_beetroot_hw_2_7_pr.Session.{Psa}
use embed_beetroot_hw_2_7_pr.Session.Cbc.{IsCbc, IsSession, encrypted_by, decrypt-encrypted_by}
use embed_beetroot_hw_2_7_pr.Telemetry.{TelemetryCtx, Poll, telemetry_task}
use embed_beetroot_hw_2_7_pr.Telemetry.Values.{Values, values, decode}
use embed_beetroot_hw_2_7_pr.Telemetry.Stream.{AreAlike, chunks_of}
use embed_beetroot_hw_2_7_pr.Telemetry.Protocol.{
  observe, observe_if, observe_all, IsAssigned, IsAssignedIf, AreAssigned,
  telemetry_task-observe_all,
}

-- A packet that the device sends, as the plaintext that it encrypts, with the noise before it.
pub record Report : Type 0 where
  pub noise : List ℕ
  pub inner : List ℕ
  pub packet : InnerPacket
  pub parsed : river2_inner_parse inner ≡ some packet
  pub fits : length inner ≤ 240

abbrev pub observe_packets : List Report → Values → Values
observe_packets [] v = v
observe_packets (report ∷ reports) v = observe_packets reports (observe report.packet v)

-- The packets keep to the table of the protocol document.
abbrev pub AreTabled : List Report → Type 0
AreTabled [] = Unit
AreTabled (report ∷ reports) = IsAssigned report.packet × AreTabled reports

module _ (psa : Psa) (ctx : TelemetryCtx) (stack : List ℕ)
    (cbc_encrypt cbc_decrypt : List ℕ → List ℕ → List ℕ → List ℕ)
    (laws : IsCbc psa cbc_encrypt cbc_decrypt) (session : IsSession ctx.session) where
  abbrev pub sent_of : List Report → List Sent
  sent_of [] = []
  sent_of (report ∷ reports) =
      record {
        noise = report.noise;
        frame = record {
          frame_type = river2_frame_data;
          payload = encrypted_by cbc_encrypt ctx.session report.inner;
        };
      }
      ∷ sent_of reports

  decode-report :
      (report : Report)
      → decode psa ctx stack (record {
        frame_type = river2_frame_data;
        payload = encrypted_by cbc_encrypt ctx.session report.inner;
      })
        ≡ some report.packet
  decode-report report =
      let opened =
        decrypt-encrypted_by psa cbc_encrypt cbc_decrypt laws ctx.session session report.inner stack
          256 (omega (arith, report.fits)) in
      ap
        (λ (r : Result (List ℕ)).
          let o : Option InnerPacket = elim r [
            | err e ↦ none
            | ok decrypted ↦ river2_inner_parse decrypted
          ] in
          o)
        opened
      ∙ report.parsed

  pub sent-AreAssigned :
      (reports : List Report)
      → AreTabled reports
      → AreAssigned psa ctx stack (frames_of (sent_of reports))
  sent-AreAssigned [] tabled = tt
  sent-AreAssigned (report ∷ reports) tabled =
      (subst IsAssignedIf (sym (decode-report report)) tabled.0, sent-AreAssigned reports tabled.1)

  observe_all-packets :
      (reports : List Report) (v : Values)
      → observe_all psa ctx stack (frames_of (sent_of reports)) v ≡ observe_packets reports v
  observe_all-packets [] v = refl
  observe_all-packets (report ∷ reports) v =
      ap (λ o. observe_all psa ctx stack (frames_of (sent_of reports)) (observe_if o v))
        (decode-report report)
      ∙ observe_all-packets reports (observe report.packet v)

  pub heard :
      (reports : List Report) (polls : List Poll)
      → AreSendable (sent_of reports)
      → flatten (chunks_of polls) ≡ on_air (sent_of reports)
      → (frames_in (flatten (chunks_of polls))).0 ≡ frames_of (sent_of reports)
  heard reports polls sendable arrived =
      ap (λ r. r.0) (ap frames_in arrived ∙ frames_in-on_air (sent_of reports) sendable)

  -- Over a library that does CBC as documented, when memory can be had and the array that is
  -- decrypted into holds the same before each decryption: when a device of the same session sends
  -- packets of at most 240 bytes as data frames, the MPPT board its command 0x02 with command set
  -- 0x20 only, with noise between the frames that holds no 0x5A, and their bytes come in
  -- notifications split in any way, with waits that run out between them, then the values that the
  -- task keeps are those that the protocol gives for the packets one after the other, each
  -- heartbeat setting the values that it is long enough for.
  pub telemetry_task-observe_packets :
      (reports : List Report) (polls : List Poll)
      → AreSendable (sent_of reports)
      → AreTabled reports
      → AreAlike psa ctx stack polls
      → flatten (chunks_of polls) ≡ on_air (sent_of reports)
      → values (telemetry_task psa ctx polls)
        ≡ observe_packets reports
            (record { battery_percent = 255; dc_out_state = 255; ac_enabled = 255 })
  telemetry_task-observe_packets reports polls sendable tabled alike arrived =
      let start : Values = record { battery_percent = 255; dc_out_state = 255; ac_enabled = 255 } in
      let frames = heard reports polls sendable arrived in
      telemetry_task-observe_all psa ctx stack polls alike
        (subst (AreAssigned psa ctx stack) (sym frames) (sent-AreAssigned reports tabled))
      ∙ ap (λ l. observe_all psa ctx stack l start) frames
      ∙ observe_all-packets reports start
