-- ===== src/Auth/Run/Returns.antt =====
-- What holds of the value of a step that succeeds, one rule for each way to build a step.
use embed_beetroot_hw_2_7_pr.Prelude.{ℕ, zero, suc, ◌≡◌, refl, List, Result, ok, err}
use embed_beetroot_hw_2_7_pr.Packet.Words.{river2_frame_data}
use embed_beetroot_hw_2_7_pr.Ecdh.{EcdhCtx, river2_ecdh_gen_keypair}
use embed_beetroot_hw_2_7_pr.Auth.{
  World, Platform, Action, ◌>>=◌, lift, wait_for_frame, step_timeout_ms,
}
use embed_beetroot_hw_2_7_pr.Auth.Run.{allocated, freeing, new_keypair}
use embed_beetroot_hw_2_7_pr.Auth.Replies.{
  Verdict, keep_waiting, finished, go_on, after_reply, pending, await_reply, await,
}

abbrev pub Of : {A : Type 0} → (A → Type 0) → Result A → Type 0
Of Q (ok a) = Q a
Of Q (err e) = Unit

pub Of-map :
    {A : Type 0} {P Q : A → Type 0} → ((a : A) → P a → Q a) → (r : Result A) → Of P r → Of Q r
Of-map f (ok a) h = f a h
Of-map f (err e) h = tt

pub record Returns {A : Type 0} (Q : A → Type 0) (act : Action A) : Type 0 where
  pub at : (w : World) → Of Q (act w).0

module _ {A : Type 0} {Q : A → Type 0} where
  pub Returns-lift : (r : Result A) → ((a : A) → r ≡ ok a → Q a) → Returns Q (lift r)
  Returns-lift (ok a) h = record { at = λ w. h a refl }
  Returns-lift (err e) h = record { at = λ w. tt }

  pub Returns-ok : (a : A) → Q a → Returns Q (lift (ok a))
  Returns-ok a h = record { at = λ w. h }

module _ {A : Type 0} where
  Of-any : (r : Result A) → Of (λ a. Unit) r
  Of-any (ok a) = tt
  Of-any (err e) = tt

  -- Of a step about whose value nothing need be known.
  pub Returns-any : (act : Action A) → Returns (λ a. Unit) act
  Returns-any act = record { at = λ w. Of-any ((act w).0) }

module _ {A : Type 0} {Q : A → Type 0} where
  pub Returns-freeing : (act : Action A) → Returns Q act → Returns Q (freeing act)
  unfolding freeing
  Returns-freeing act h = record { at = λ w. h.at w }

module _ {A B : Type 0} {Q : B → Type 0} where
  pub Returns-bind_lift :
      (r : Result A) (next : A → Action B)
      → ((a : A) → r ≡ ok a → Returns Q (next a))
      → Returns Q (lift r >>= next)
  Returns-bind_lift (ok a) next h = h a refl
  Returns-bind_lift (err e) next h = record { at = λ w. tt }

  Returns-rest :
      (P : A → Type 0) (next : A → Action B)
      → ((a : A) → P a → Returns Q (next a))
      → (r : Result A × World) (w0 : World) → Of P r.0
      → Of Q (((λ w. r) >>= next) w0).0
  Returns-rest P next h (ok a, w) w0 holds = (h a holds).at w
  Returns-rest P next h (err e, w) w0 holds = tt

  pub Returns-bind :
      (P : A → Type 0) (m : Action A) (next : A → Action B)
      → Returns P m
      → ((a : A) → P a → Returns Q (next a))
      → Returns Q (m >>= next)
  Returns-bind P m next first h = record { at = λ w. Returns-rest P next h (m w) w (first.at w) }

  -- A step about whose value nothing need be known.
  pub Returns-after :
      (m : Action A) (next : A → Action B) → ((a : A) → Returns Q (next a)) → Returns Q (m >>= next)
  Returns-after m next h = Returns-bind (λ a. Unit) m next (Returns-any m) (λ a known. h a)

module _ (p : Platform) where
  made :
      (w : World) (r : Result (EcdhCtx × List ℕ))
      → river2_ecdh_gen_keypair p.ecc p.ecdh_memory ≡ r
      → Of (λ pair. river2_ecdh_gen_keypair p.ecc p.ecdh_memory ≡ ok pair) (allocated w r).0
  unfolding allocated
  made w (ok pair) e = e
  made w (err code) e = tt

  pub Returns-new_keypair :
      {B : Type 0} {Q : B → Type 0} (next : EcdhCtx × List ℕ → Action B)
      → ((pair : EcdhCtx × List ℕ)
          → river2_ecdh_gen_keypair p.ecc p.ecdh_memory ≡ ok pair
          → Returns Q (next pair))
      → Returns Q (new_keypair p >>= next)
  unfolding new_keypair
  Returns-new_keypair next h =
      Returns-bind (λ pair. river2_ecdh_gen_keypair p.ecc p.ecdh_memory ≡ ok pair) (new_keypair p)
        next (record { at = λ w. made w (river2_ecdh_gen_keypair p.ecc p.ecdh_memory) refl }) h

pub ruleset returns_rules =
    (Returns-ok, Returns-bind_lift, Returns-after, Returns-freeing, Returns-new_keypair)

-- The loops end well with a reply that says so.
module _ (judged : List ℕ → Verdict) where
  abbrev pub Ended : Unit {0} → Type 0
  Ended done = (reply : List ℕ) × (judged reply ≡ finished (ok tt))

  go_on-Ended :
      (rest : Action (Unit {0})) (w : World) (reply : List ℕ) (verdict : Verdict)
      → judged reply ≡ verdict
      → Returns Ended rest
      → Of Ended (go_on rest verdict w).0
  unfolding go_on
  go_on-Ended rest w reply keep_waiting e h = h.at w
  go_on-Ended rest w reply (finished (ok done)) e h = (reply, e)
  go_on-Ended rest w reply (finished (err code)) e h = tt

  after_reply-Ended :
      (rest : Action (Unit {0})) (r : Result (List ℕ) × World)
      → Returns Ended rest
      → Of Ended (after_reply rest judged r).0
  unfolding after_reply
  after_reply-Ended rest (ok reply, w) h = go_on-Ended rest w reply (judged reply) refl h
  after_reply-Ended rest (err e, w) h = tt

  await_reply-Ended : (fuel : ℕ) → Returns Ended (await_reply fuel judged)
  unfolding await_reply
  await_reply-Ended zero = record { at = λ w. tt }
  await_reply-Ended (suc fuel) = record {
    at = λ w.
        after_reply-Ended (await_reply fuel judged)
          (wait_for_frame river2_frame_data step_timeout_ms w) (await_reply-Ended fuel);
  }

  pub await-Ended : Returns Ended (await judged)
  unfolding await
  await-Ended = record { at = λ w. (await_reply-Ended (suc (pending w))).at w }
