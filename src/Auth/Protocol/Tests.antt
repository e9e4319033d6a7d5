-- ===== src/Auth/Protocol/Tests.antt =====
-- A whole handshake, with a device that keeps to the protocol.
use embed_beetroot_hw_2_7_pr.Prelude.{
  ◌≡◌, refl, arith, [], ◌∷◌, ◌++◌, length, replicate, take, ok, and_then,
}
use embed_beetroot_hw_2_7_pr.Packet.Reassembly.{river2_framebuf_init}
use embed_beetroot_hw_2_7_pr.Packet.Reassembly.Chunks.{frames_in}
use embed_beetroot_hw_2_7_pr.Session.Sample.{same_blocks, plain_psa-IsCbc, a_session}
use embed_beetroot_hw_2_7_pr.Config.{user_id_size}
use embed_beetroot_hw_2_7_pr.Auth.Taking.{stream}
use embed_beetroot_hw_2_7_pr.Auth.Hex.{AreHexDigits, from_hex, hex_loop-from_hex}
use embed_beetroot_hw_2_7_pr.Auth.Run.{river2_auth_run, hex_loop, strnlen}
use embed_beetroot_hw_2_7_pr.Auth.Protocol.{protocol}
use embed_beetroot_hw_2_7_pr.Auth.Protocol.Refines.{out_session, river2_auth_run-protocol}
use embed_beetroot_hw_2_7_pr.Auth.Protocol.Device.{session_of}
use embed_beetroot_hw_2_7_pr.Auth.Protocol.Conversation.{Says}
use embed_beetroot_hw_2_7_pr.Auth.Protocol.Honest.{river2_auth_run-Talks}
use embed_beetroot_hw_2_7_pr.Auth.Protocol.Sample.{
  a_platform, a_platform-Works, a_platform-Digests, a_config, a_serial, a_secret, talk_world,
}
use embed_beetroot_hw_2_7_pr.Auth.Protocol.Talk.{talk_world-IsInTime, said-Talks, short_id}

hex_loop-from_hex_example :
    (let payload = hex_loop (0 ∷ 171 ∷ 255 ∷ []) 0 (replicate 6 9) in
      AreHexDigits payload × (length payload ≡ 6) × (from_hex payload ≡ 0 ∷ 171 ∷ 255 ∷ []))
hex_loop-from_hex_example =
    hex_loop-from_hex (0 ∷ 171 ∷ 255 ∷ []) (replicate 6 9) (omega arith) refl

river2_auth_run-Talks_example :
    (let (code, session, w') = river2_auth_run a_platform a_config a_serial a_session talk_world in
      (code ≡ ok tt)
      × (session ≡ session_of a_platform a_config a_secret 2 1 (replicate 16 9))
      × Says a_platform
          (session_of a_platform a_config a_secret 2 1 (replicate 16 9))
          (replicate 40 5)
          (take (strnlen a_config.ef_user user_id_size) a_config.ef_user ++ a_serial)
          []
          w'.sent)
river2_auth_run-Talks_example =
    river2_auth_run-Talks a_platform a_platform-Works a_platform-Digests same_blocks same_blocks
      plain_psa-IsCbc a_config a_serial short_id (replicate 40 5) a_secret 2 1 (replicate 16 9)
      a_session talk_world talk_world-IsInTime said-Talks

river2_auth_run-protocol_example :
    (let (code, session, w') = river2_auth_run a_platform a_config a_serial a_session talk_world in
      let (agreed, link) =
        protocol a_platform a_config a_serial
          (record { incoming = (frames_in (stream talk_world.readings)).0; sent = [] }) in
      (code ≡ and_then agreed (λ session. ok tt))
      × (session ≡ out_session a_session agreed)
      × (w'.sent ≡ link.sent)
      × (w'.fb ≡ river2_framebuf_init))
river2_auth_run-protocol_example =
    river2_auth_run-protocol a_platform a_config a_serial a_session talk_world talk_world-IsInTime
