-- ===== src/Auth/Protocol/Refines.antt =====
-- `river2_auth_run` follows the protocol.
use embed_beetroot_hw_2_7_pr.Prelude.{ℕ, ◌≡◌, refl, sym, List, [], Result, ok, err, and_then}
use embed_beetroot_hw_2_7_pr.Packet.Reassembly.{river2_framebuf_init, river2_framebuf_free}
use embed_beetroot_hw_2_7_pr.Packet.Reassembly.Chunks.{frames_in}
use embed_beetroot_hw_2_7_pr.Session.{Session}
use embed_beetroot_hw_2_7_pr.Ecdh.{EcdhCtx, river2_ecdh_gen_keypair}
use embed_beetroot_hw_2_7_pr.Config.{EcoflowConfig}
use embed_beetroot_hw_2_7_pr.Auth.{World, Platform, Action, lift}
use embed_beetroot_hw_2_7_pr.Auth.Taking.{stream}
use embed_beetroot_hw_2_7_pr.Auth.Run.{
  allocated, new_keypair, freeing, exchange_with, exchange_keys, request_session_key, wake_up,
  authenticate, handshake, river2_auth_run,
}
use embed_beetroot_hw_2_7_pr.Auth.Replies.{judge, status_verdict}
use embed_beetroot_hw_2_7_pr.Auth.Protocol.{
  Link, Exchange, agree_secret, agree_session, ask, prove, protocol,
}
use embed_beetroot_hw_2_7_pr.Auth.Protocol.Follows.{IsInTime, view, Matches, Follows, follows_rules}
use embed_beetroot_hw_2_7_pr.Auth.Protocol.Awaits.{wait_for_frame-Follows}
use embed_beetroot_hw_2_7_pr.Auth.Protocol.Moves.{
  send_frame-Follows, send_inner_encrypted-Follows, await-Follows,
}

ruleset step_rules = (
  follows_rules, send_frame-Follows, send_inner_encrypted-Follows, wait_for_frame-Follows,
  await-Follows,
)

-- What is allocated does not matter to the protocol.
allocated-IsInTime :
    {start : ℕ} {w : World} (n : ℕ) → IsInTime start w → IsInTime start (record w { contexts = n })
allocated-IsInTime n in_time = record {
  memory = in_time.memory;
  started = in_time.started;
  coming = in_time.coming;
}

freed :
    {A : Type 0} (start : ℕ) (r : Result A × World) (done : Result A × Link)
    → Matches start r done
    → Matches start (freeing (λ w. r) r.1) done
unfolding freeing
freed start (ok a, w) done (same, in_time) = (same, allocated-IsInTime _ in_time)
freed start (err e, w) done h = h

freeing-Follows :
    {A : Type 0} {start : ℕ} (act : Action A) (step : Exchange A)
    → Follows start act step
    → Follows start (freeing act) step
unfolding freeing
freeing-Follows {start = start} act step h = record {
  at = λ w in_time. freed start (act w) (step (view w)) (h.at w in_time);
}

module _ (p : Platform) (start : ℕ) where
  made :
      (w : World) (r : Result (EcdhCtx × List ℕ))
      → IsInTime start w
      → Matches start (allocated w r) (r, view w)
  unfolding allocated
  made w (ok pair) in_time = (refl, allocated-IsInTime _ in_time)
  made w (err code) in_time = (refl, refl)

  new_keypair-Follows :
      Follows start (new_keypair p) (lift (river2_ecdh_gen_keypair p.ecc p.ecdh_memory))
  unfolding new_keypair
  new_keypair-Follows = record {
    at = λ w in_time. made w (river2_ecdh_gen_keypair p.ecc p.ecdh_memory) in_time;
  }

  exchange_keys-Follows : Follows start (exchange_keys p) (agree_secret p)
  unfolding exchange_keys exchange_with agree_secret
  exchange_keys-Follows = search (step_rules, new_keypair-Follows, freeing-Follows) depth 14

  request_session_key-Follows :
      (cfg : EcoflowConfig) (interim : Session)
      → Follows start (request_session_key p cfg interim) (agree_session p cfg interim)
  unfolding request_session_key agree_session
  request_session_key-Follows cfg interim = search step_rules depth 14

  wake_up-Follows :
      (session : Session)
      → Follows start (wake_up p session) (ask p session 0x89 [] (judge p session status_verdict))
  unfolding wake_up ask
  wake_up-Follows session = search step_rules depth 14

  authenticate-Follows :
      (cfg : EcoflowConfig) (dev_serial : List ℕ) (session : Session)
      → Follows start (authenticate p cfg dev_serial session) (prove p cfg dev_serial session)
  unfolding authenticate prove ask
  authenticate-Follows cfg dev_serial session = search step_rules depth 14

  handshake-Follows :
      (cfg : EcoflowConfig) (dev_serial : List ℕ)
      → Follows start (handshake p cfg dev_serial) (protocol p cfg dev_serial)
  unfolding handshake protocol
  handshake-Follows cfg dev_serial =
      search
        (
          follows_rules, exchange_keys-Follows, request_session_key-Follows, wake_up-Follows,
          authenticate-Follows,
        )
        depth 14

abbrev pub out_session : Session → Result Session → Session
out_session before (ok session) = session
out_session before (err e) = before

-- The code and the caller's session that belong to the protocol's result.
returned :
    (before : Session) (start : ℕ) (r : Result Session × World) (done : Result Session × Link)
    → Matches start r done
    → (let w = record r.1 { fb = river2_framebuf_free r.1.fb } in
        let (code, session, w') : Result (Unit {0}) × Session × World = elim (r.0) [
          | ok session ↦ (ok tt, session, w)
          | err e ↦ (err e, before, w)
        ] in
        (code ≡ and_then done.0 (λ session. ok tt))
        × (session ≡ out_session before done.0)
        × (w'.sent ≡ done.1.sent)
        × (w'.fb ≡ river2_framebuf_init))
unfolding river2_framebuf_free
returned before start (ok session, w) done h = rw h.0 (refl, refl, refl, refl)
returned before start (err e, w) (ok session, link) h = cc
returned before start (err e, w) (err e', link) h = (cc, refl, sym h.1, refl)

-- When memory can be had and each reading comes before the first step's deadline: the handshake
-- returns the code that the protocol has for the frames that the notifications hold, however they
-- are split; it sends the same frames; the caller's session is the agreed one after a success and
-- as it was after an error; and the reassembly buffer is given back on every path.
pub river2_auth_run-protocol :
    (p : Platform) (cfg : EcoflowConfig) (dev_serial : List ℕ) (before : Session) (w : World)
    → IsInTime w.clock w
    → (let (code, session, w') = river2_auth_run p cfg dev_serial before w in
        let (agreed, link) =
          protocol p cfg dev_serial
            (record { incoming = (frames_in (stream w.readings)).0; sent = w.sent }) in
        (code ≡ and_then agreed (λ session. ok tt))
        × (session ≡ out_session before agreed)
        × (w'.sent ≡ link.sent)
        × (w'.fb ≡ river2_framebuf_init))
unfolding river2_auth_run river2_framebuf_init
river2_auth_run-protocol p cfg dev_serial before w in_time =
    let w0 = record w { fb = river2_framebuf_init } in
    returned before w.clock (handshake p cfg dev_serial w0) (protocol p cfg dev_serial (view w0)) (
      (handshake-Follows p w.clock cfg dev_serial).at w0
        (record { memory = in_time.memory; started = in_time.started; coming = in_time.coming }))
