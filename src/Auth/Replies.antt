-- ===== src/Auth/Replies.antt =====
-- main/src/river2_auth.c, the loops of the last two steps of `river2_auth_run`: what they do with a
-- reply.
use embed_beetroot_hw_2_7_pr.Prelude.{
  ℕ, zero, suc, ◌+◌, min, Bool, not, ◌&&◌, Option, none, some, List, [], ◌∷◌, ◌==◌, if◌then◌else◌,
  length, get_or, Result, ok, err, invalid_state, timeout,
}
use embed_beetroot_hw_2_7_pr.Packet.Words.{river2_frame_data, river2_addr_auth}
use embed_beetroot_hw_2_7_pr.Packet.Inner.{InnerPacket, river2_inner_parse}
use embed_beetroot_hw_2_7_pr.Session.{Session, river2_session_decrypt}
use embed_beetroot_hw_2_7_pr.Auth.{
  World, Reading, Platform, Action, wait_for_frame, step_timeout_ms, notify_chunk_max,
}

-- What a loop does with a reply: it waits for the next, or the step ends.
pub data Verdict : Type 0 where
  keep_waiting : Verdict
  finished : Result (Unit {0}) → Verdict

unfoldable pub is_status_reply : InnerPacket → Bool
is_status_reply pkt = pkt.src == river2_addr_auth && pkt.cmd_set == 0x35

unfoldable pub is_auth_reply : InnerPacket → Bool
is_auth_reply pkt = pkt.src == river2_addr_auth && pkt.cmd_set == 0x35 && pkt.cmd_id == 0x86

unfoldable pub status_verdict : Option InnerPacket → Verdict
unfolding is_status_reply
status_verdict none = keep_waiting
status_verdict (some pkt) = if is_status_reply pkt then finished (ok tt) else keep_waiting

unfoldable pub auth_verdict : Option InnerPacket → Verdict
unfolding is_auth_reply
auth_verdict none = keep_waiting
auth_verdict (some pkt) =
    if not (is_auth_reply pkt)
    then finished (ok tt)
    else let code = if pkt.payload_len == 1 then get_or pkt.payload 0 0 else 0xFF in
      if pkt.payload_len == 1 && code == 0x00
      then finished (ok tt)
      else finished (err invalid_state)

-- Decryption and parsing of a reply, which both loops do.
unfoldable pub judge : Platform → Session → (Option InnerPacket → Verdict) → List ℕ → Verdict
judge p session verdict reply =
    elim (river2_session_decrypt p.psa session reply (p.stack 256) 256) [
      | err e ↦ finished (err e)
      | ok decrypted ↦ verdict (river2_inner_parse decrypted)
    ]

unfoldable pub go_on : Action (Unit {0}) → Verdict → Action (Unit {0})
go_on rest keep_waiting w = rest w
go_on rest (finished r) w = (r, w)

-- The bytes that the readings can still bring.
unfoldable pub incoming : List Reading → ℕ
incoming [] = 0
incoming (reading ∷ later) =
    elim (reading.received) [ none ↦ 0 | some chunk ↦ min notify_chunk_max (length chunk) ]
    + incoming later

unfoldable pub pending : World → ℕ
unfolding incoming
pending w = length w.fb.bytes + incoming w.readings

unfoldable pub after_reply :
    Action (Unit {0}) → (List ℕ → Verdict) → Result (List ℕ) × World → Result (Unit {0}) × World
unfolding go_on
after_reply rest judged (ok reply, w) = go_on rest (judged reply) w
after_reply rest judged (err e, w) = (err e, w)

unfoldable pub await_reply : ℕ → (List ℕ → Verdict) → Action (Unit {0})
unfolding after_reply
await_reply zero judged w = (err timeout, w)
await_reply (suc fuel) judged w =
    after_reply (await_reply fuel judged) judged
      (wait_for_frame river2_frame_data step_timeout_ms w)

-- The loop of a step. Each reply takes eight bytes at least, so the fuel suffices.
unfoldable pub await : (List ℕ → Verdict) → Action (Unit {0})
unfolding await_reply pending
await judged w = await_reply (suc (pending w)) judged w
