-- ===== src/Commands/Arrival.antt =====
-- A command from the firmware to the device, through every layer.
use embed_beetroot_hw_2_7_pr.Prelude.{
  ℕ, ◌≤◌, ◌<◌, ◌≡◌, ◌∙◌, arith, Bool, List, [], ◌∷◌, ◌++◌, if◌then◌else◌, length, replicate,
  IsBytes, ok,
}
use embed_beetroot_hw_2_7_pr.Packet.Words.{river2_frame_data, river2_addr_app}
use embed_beetroot_hw_2_7_pr.Packet.Inner.Wire.{AreBytes}
use embed_beetroot_hw_2_7_pr.Packet.Outer.Wire.{frame_of}
use embed_beetroot_hw_2_7_pr.Session.{Session}
use embed_beetroot_hw_2_7_pr.Session.Cbc.{IsCbc, IsSession}
use embed_beetroot_hw_2_7_pr.Commands.{
  ac_payload, dc_payload, river2_set_ac_output, river2_set_dc_output,
}
use embed_beetroot_hw_2_7_pr.Auth.{World, Platform, river2_send_command}
use embed_beetroot_hw_2_7_pr.Auth.Protocol.Sending.{
  Works, Brings, seal-Seals, send_frame_lem, send_inner_encrypted-seal,
}

module _ (p : Platform) (works : Works p)
    (cbc_encrypt cbc_decrypt : List ℕ → List ℕ → List ℕ → List ℕ)
    (laws : IsCbc p.psa cbc_encrypt cbc_decrypt) (c : Session) (session : IsSession c) where
  -- Over a library that does CBC as documented, with a key and an iv of 16 bytes, when no call
  -- fails: a command of byte-sized fields and a payload of at most 282 bytes is sent as one
  -- frame, and that frame brings it to a device that has the same session: source,
  -- destination, command and payload are what the device parses.
  pub river2_send_command-Brings :
      (dst cmd_set cmd_id : ℕ) (payload : List ℕ) (w : World)
      → AreBytes river2_addr_app dst cmd_set cmd_id
      → IsBytes payload
      → length payload ≤ 282
      → (bytes : List ℕ) × (river2_send_command p c dst cmd_set cmd_id payload w
          ≡ (ok tt, record w { sent = w.sent ++ bytes ∷ [] }))
        × Brings p c bytes (record {
          src = river2_addr_app;
          dst = dst;
          cmd_set = cmd_set;
          cmd_id = cmd_id;
          payload = payload;
          payload_len = length payload;
        })
  unfolding river2_send_command
  river2_send_command-Brings dst cmd_set cmd_id payload w hs hp hn =
      let s =
        seal-Seals p works cbc_encrypt cbc_decrypt laws c session dst cmd_set cmd_id payload hs hp
          hn in
      (
        frame_of river2_frame_data s.encrypted,
        send_inner_encrypted-seal p c river2_addr_app dst cmd_set cmd_id payload w
            ∙ (rw s.sealed
                (send_frame_lem p works river2_frame_data s.encrypted w s.encrypted_bytes s.fits)),
        s.brings,
      )

module _ (p : Platform) (works : Works p)
    (cbc_encrypt cbc_decrypt : List ℕ → List ℕ → List ℕ → List ℕ)
    (laws : IsCbc p.psa cbc_encrypt cbc_decrypt) (c : Session) (session : IsSession c) where
  -- Over a library that does CBC as documented, with a key and an iv of 16 bytes, when no call
  -- fails: each of the two switching commands reaches a device of the same session as the packet
  -- of the protocol's table, for either state.
  pub river2_set_output-Brings :
      (enable : Bool) (w : World)
      → ((bytes : List ℕ) × (river2_set_ac_output p c enable w
            ≡ (ok tt, record w { sent = w.sent ++ bytes ∷ [] }))
          × Brings p c bytes (record {
            src = 0x21;
            dst = 0x05;
            cmd_set = 0x20;
            cmd_id = 0x42;
            payload = (if enable then 1 else 0) ∷ replicate 6 0xFF;
            payload_len = 7;
          }))
        × ((bytes : List ℕ) × (river2_set_dc_output p c enable w
              ≡ (ok tt, record w { sent = w.sent ++ bytes ∷ [] }))
            × Brings p c bytes (record {
              src = 0x21;
              dst = 0x05;
              cmd_set = 0x20;
              cmd_id = 0x51;
              payload = (if enable then 1 else 0) ∷ [];
              payload_len = 1;
            }))
  unfolding river2_set_ac_output river2_set_dc_output
  river2_set_output-Brings enable w =
      let byte : (if enable then 1 else 0) < 256 = ground arith in
      (
        river2_send_command-Brings p works cbc_encrypt cbc_decrypt laws c session 0x05 0x20 0x42
            (ac_payload enable) w (omega arith) (omega (arith, byte)) (omega arith),
        river2_send_command-Brings p works cbc_encrypt cbc_decrypt laws c session 0x05 0x20 0x51
            (dc_payload enable) w (omega arith) (omega (arith, byte)) (omega arith),
      )
