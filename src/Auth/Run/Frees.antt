-- ===== src/Auth/Run/Frees.antt =====
-- Every ECDH context that the handshake allocates is freed: a step that holds none leaves as many
-- allocated as there were.
use embed_beetroot_hw_2_7_pr.Prelude.{
  ℕ, zero, suc, ◌+◌, ◌*◌, ◌≡◌, refl, ap, ◌∙◌, arith, Bool, true, false, Option, none, some, List,
  [], ◌∷◌, length, leb, Result, ok, err, timeout,
}
use embed_beetroot_hw_2_7_pr.Packet.Words.{river2_frame_data}
use embed_beetroot_hw_2_7_pr.Packet.Reassembly.{FrameBuf, river2_framebuf_append}
use embed_beetroot_hw_2_7_pr.Session.{Session}
use embed_beetroot_hw_2_7_pr.Ecdh.{EcdhCtx, river2_ecdh_gen_keypair, river2_ecdh_free}
use embed_beetroot_hw_2_7_pr.Config.{EcoflowConfig}
use embed_beetroot_hw_2_7_pr.Ble.Calls.{wait_notification}
use embed_beetroot_hw_2_7_pr.Auth.{
  Reading, World, Platform, Action, ◌>>=◌, lift, take_frame, after_append, after_clock, after_wait,
  wait_round, wait_reading, wait_loop, wait_for_frame, send_frame, send_inner_encrypted,
  notify_chunk_max, step_timeout_ms,
}
use embed_beetroot_hw_2_7_pr.Auth.Run.{
  allocated, freeing, new_keypair, exchange_with, exchange_keys, request_session_key, wake_up,
  authenticate, handshake,
}
use embed_beetroot_hw_2_7_pr.Auth.Replies.{
  Verdict, keep_waiting, finished, go_on, after_reply, pending, await_reply, await,
}
use embed_beetroot_hw_2_7_pr.Auth.Protocol.Whole.{
  IsWhole, send_frame-IsWhole, send_inner_encrypted-IsWhole,
}

pub record Keeps {A : Type 0} (act : Action A) : Type 0 where
  pub at : (w : World) → (act w).1.contexts ≡ w.contexts

module _ {A : Type 0} where
  Keeps-lift : (r : Result A) → Keeps (lift r)
  Keeps-lift r = record { at = λ w. refl }

module _ {A B : Type 0} where
  rest-Keeps :
      (next : A → Action B)
      → ((a : A) → Keeps (next a))
      → (r : Result A × World) (w0 : World) → (((λ w. r) >>= next) w0).1.contexts ≡ r.1.contexts
  rest-Keeps next keeps (ok a, w) w0 = (keeps a).at w
  rest-Keeps next keeps (err e, w) w0 = refl

  Keeps-bind :
      (m : Action A) (next : A → Action B)
      → Keeps m
      → ((a : A) → Keeps (next a))
      → Keeps (m >>= next)
  Keeps-bind m next first keeps = record { at = λ w. rest-Keeps next keeps (m w) w ∙ first.at w }

-- Waiting
append-Keeps :
    (rest : Action (List ℕ)) (w : World) (appended : Bool × FrameBuf)
    → Keeps rest
    → (after_append rest w appended).1.contexts ≡ w.contexts
unfolding after_append
append-Keeps rest w (true, fb) keeps = keeps.at (record w { fb = fb })
append-Keeps rest w (false, fb) keeps = refl

wait-Keeps :
    (rest : Action (List ℕ)) (received : Option (List ℕ))
    → Keeps rest
    → Keeps (after_wait rest (wait_notification received notify_chunk_max))
unfolding after_wait wait_notification
wait-Keeps rest none keeps = keeps
wait-Keeps rest (some chunk) keeps = record {
  at = λ w. append-Keeps rest w (river2_framebuf_append w.memory w.fb _) keeps;
}

clock-Keeps :
    (rest : Action (List ℕ)) (w : World) (late : Bool)
    → Keeps rest
    → (after_clock rest w late).1.contexts ≡ w.contexts
unfolding after_clock
clock-Keeps rest w true keeps = refl
clock-Keeps rest w false keeps = keeps.at w

reading-Keeps :
    (deadline : ℕ) (reading : Reading) (rest : Action (List ℕ))
    → Keeps rest
    → Keeps (wait_reading deadline reading rest)
unfolding wait_reading
reading-Keeps deadline reading rest keeps = record {
  at = λ w.
      clock-Keeps (after_wait rest (wait_notification reading.received notify_chunk_max))
        (record w { clock = reading.now; memory = reading.memory }) (leb deadline reading.now)
        (wait-Keeps rest reading.received keeps);
}

taken-Keeps :
    (otherwise : Action (List ℕ)) (w : World) (taken : Option (List ℕ))
    → Keeps otherwise
    → (let r : Result (List ℕ) × World = elim taken [
      | some payload ↦ (ok payload, w)
      | none ↦ otherwise w
    ] in
        r.1.contexts)
      ≡ w.contexts
taken-Keeps otherwise w (some payload) keeps = refl
taken-Keeps otherwise w none keeps = keeps.at w

round-Keeps :
    (want : ℕ) (otherwise : Action (List ℕ)) → Keeps otherwise → Keeps (wait_round want otherwise)
unfolding wait_round
round-Keeps want otherwise keeps = record {
  at = λ w.
      let (taken, fb) = take_frame (suc (length w.fb.bytes)) w.memory want w.fb in
      taken-Keeps otherwise (record w { fb = fb }) taken keeps;
}

loop-Keeps :
    (readings : List Reading) (want deadline : ℕ) → Keeps (wait_loop readings want deadline)
unfolding wait_loop
loop-Keeps [] want deadline = round-Keeps want (λ w. (err timeout, w)) (record { at = λ w. refl })
loop-Keeps (reading ∷ later) want deadline =
    let keeps =
      reading-Keeps deadline reading (wait_loop later want deadline)
        (loop-Keeps later want deadline) in
    round-Keeps want
      (λ w.
        wait_reading deadline reading (wait_loop later want deadline)
          (record w { readings = later }))
      (record { at = λ w. keeps.at (record w { readings = later }) })

wait_for_frame-Keeps : (want timeout_ms : ℕ) → Keeps (wait_for_frame want timeout_ms)
unfolding wait_for_frame
wait_for_frame-Keeps want timeout_ms = record {
  at = λ w. (loop-Keeps w.readings want (w.clock + timeout_ms * 1000)).at w;
}

-- Sending
whole-Keeps :
    (p : Platform) (w : World) (r : Result (Unit {0}) × World)
    → IsWhole p w r
    → r.1.contexts ≡ w.contexts
whole-Keeps p w (ok done, w') (bytes, taken, more) = ap (λ v. v.contexts) more
whole-Keeps p w (err e, w') same = ap (λ v. v.contexts) same

send_frame-Keeps :
    (p : Platform) (frame_type : ℕ) (payload : List ℕ) → Keeps (send_frame p frame_type payload)
send_frame-Keeps p frame_type payload = record {
  at = λ w. whole-Keeps p w _ (send_frame-IsWhole p w frame_type payload);
}

send_inner_encrypted-Keeps :
    (p : Platform) (c : Session) (src dst cmd_set cmd_id : ℕ) (payload : List ℕ)
    → Keeps (send_inner_encrypted p c src dst cmd_set cmd_id payload)
send_inner_encrypted-Keeps p c src dst cmd_set cmd_id payload = record {
  at = λ w. whole-Keeps p w _ (send_inner_encrypted-IsWhole p w c src dst cmd_set cmd_id payload);
}

-- The loops that await a reply
module _ (judged : List ℕ → Verdict) where
  go_on-Keeps :
      (rest : Action (Unit {0})) (w : World) (verdict : Verdict)
      → Keeps rest
      → (go_on rest verdict w).1.contexts ≡ w.contexts
  unfolding go_on
  go_on-Keeps rest w keep_waiting keeps = keeps.at w
  go_on-Keeps rest w (finished r) keeps = refl

  reply-Keeps :
      (rest : Action (Unit {0})) (r : Result (List ℕ) × World)
      → Keeps rest
      → (after_reply rest judged r).1.contexts ≡ r.1.contexts
  unfolding after_reply
  reply-Keeps rest (ok reply, w) keeps = go_on-Keeps rest w (judged reply) keeps
  reply-Keeps rest (err e, w) keeps = refl

  await_reply-Keeps : (fuel : ℕ) → Keeps (await_reply fuel judged)
  unfolding await_reply
  await_reply-Keeps zero = record { at = λ w. refl }
  await_reply-Keeps (suc fuel) = record {
    at = λ w.
        reply-Keeps (await_reply fuel judged) (wait_for_frame river2_frame_data step_timeout_ms w)
          (await_reply-Keeps fuel)
        ∙ (wait_for_frame-Keeps river2_frame_data step_timeout_ms).at w;
  }

  await-Keeps : Keeps (await judged)
  unfolding await
  await-Keeps = record { at = λ w. (await_reply-Keeps (suc (pending w))).at w }

ruleset keeps_rules = (
  Keeps-lift, Keeps-bind, wait_for_frame-Keeps, send_frame-Keeps, send_inner_encrypted-Keeps,
  await-Keeps,
)

-- The steps
module _ (p : Platform) where
  exchange_with-Keeps : (ctx : EcdhCtx) (our_pub : List ℕ) → Keeps (exchange_with p ctx our_pub)
  unfolding exchange_with
  exchange_with-Keeps ctx our_pub = search keeps_rules depth 14

  -- The context that was allocated is the one that is freed.
  made-Keeps :
      (w : World) (r : Result (EcdhCtx × List ℕ))
      → (((λ w0. allocated w r) >>= λ pair. freeing (exchange_with p pair.0 pair.1)) w).1.contexts
        ≡ w.contexts
  unfolding allocated freeing river2_ecdh_free
  made-Keeps w (ok (ctx, our_pub)) =
      omega (arith, (exchange_with-Keeps ctx our_pub).at (record w { contexts = w.contexts + 1 }))
  made-Keeps w (err e) = refl

  exchange_keys-Keeps : Keeps (exchange_keys p)
  unfolding exchange_keys new_keypair
  exchange_keys-Keeps = record {
    at = λ w. made-Keeps w (river2_ecdh_gen_keypair p.ecc p.ecdh_memory);
  }

  request_session_key-Keeps :
      (cfg : EcoflowConfig) (interim : Session) → Keeps (request_session_key p cfg interim)
  unfolding request_session_key
  request_session_key-Keeps cfg interim = search keeps_rules depth 14

  wake_up-Keeps : (session : Session) → Keeps (wake_up p session)
  unfolding wake_up
  wake_up-Keeps session = search keeps_rules depth 14

  authenticate-Keeps :
      (cfg : EcoflowConfig) (dev_serial : List ℕ) (session : Session)
      → Keeps (authenticate p cfg dev_serial session)
  unfolding authenticate
  authenticate-Keeps cfg dev_serial session = search keeps_rules depth 14

  pub handshake-Keeps :
      (cfg : EcoflowConfig) (dev_serial : List ℕ) → Keeps (handshake p cfg dev_serial)
  unfolding handshake
  handshake-Keeps cfg dev_serial =
      search
        (
          keeps_rules, exchange_keys-Keeps, request_session_key-Keeps, wake_up-Keeps,
          authenticate-Keeps,
        )
        depth 14
