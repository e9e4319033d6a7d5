-- ===== src/Auth/Protocol/Follows.antt =====
-- When a step of the handshake's code follows a step of the protocol: the frames to come are those
-- in the buffer and in the readings that are left.
use embed_beetroot_hw_2_7_pr.Prelude.{
  ℕ, ◌+◌, ◌*◌, ◌<◌, ◌≤◌, ◌≡◌, refl, sym, subst, true, List, [], ◌∷◌, ◌++◌, Result, ok, err,
}
use embed_beetroot_hw_2_7_pr.Packet.Reassembly.Chunks.{frames_in}
use embed_beetroot_hw_2_7_pr.Auth.{Reading, World, Action, ◌>>=◌, lift, step_timeout_ms}
use embed_beetroot_hw_2_7_pr.Auth.Taking.{stream}
use embed_beetroot_hw_2_7_pr.Auth.Protocol.{Link, Exchange}

-- Memory can be had at every reading, and none is later than a step that began at `start` waits.
abbrev pub AreInTime : ℕ → List Reading → Type 0
AreInTime start [] = Unit
AreInTime start (reading ∷ later) =
    (reading.memory ≡ true)
    × (start ≤ reading.now)
    × (reading.now < start + step_timeout_ms * 1000)
    × AreInTime start later

pub record IsInTime (start : ℕ) (w : World) : Type 0 where
  pub memory : w.memory ≡ true
  pub started : start ≤ w.clock
  pub coming : AreInTime start w.readings

abbrev pub view : World → Link
view w = record { incoming = (frames_in (w.fb.bytes ++ stream w.readings)).0; sent = w.sent }

-- The same result, and the same frames to come; after an error the same frames were sent.
abbrev pub Matches : {A : Type 0} → ℕ → Result A × World → Result A × Link → Type 0
Matches start (ok a, w) done = (done ≡ (ok a, view w)) × IsInTime start w
Matches start (err e, w) done = (done.0 ≡ err e) × (done.1.sent ≡ w.sent)

pub record Follows {A : Type 0} (start : ℕ) (act : Action A) (step : Exchange A) : Type 0 where
  pub at : (w : World) → IsInTime start w → Matches start (act w) (step (view w))

module _ {A : Type 0} {start : ℕ} where
  pub Follows-lift : (r : Result A) → Follows start (lift r) (lift r)
  Follows-lift (ok a) = record { at = λ w in_time. (refl, in_time) }
  Follows-lift (err e) = record { at = λ w in_time. (refl, refl) }

module _ {A B : Type 0} {start : ℕ} where
  -- The rest of two blocks, behind steps that ended alike.
  Follows-rest :
      (act : A → Action B) (step : A → Exchange B)
      → ((a : A) → Follows start (act a) (step a))
      → (r : Result A × World) (done : Result A × Link) (w0 : World) (link0 : Link)
      → Matches start r done
      → Matches start (((λ w. r) >>= act) w0) (((λ link. done) >>= step) link0)
  Follows-rest act step follow (ok a, w) done w0 link0 (same, in_time) =
      subst (λ d. Matches start (act a w) (((λ link. d) >>= step) link0)) (sym same)
        ((follow a).at w in_time)
  Follows-rest act step follow (err e, w) (ok a, link) w0 link0 (same, same_sent) = cc
  Follows-rest act step follow (err e, w) (err e', link) w0 link0 h = (cc, h.1)

  pub Follows-bind :
      (m : Action A) (s : Exchange A) (act : A → Action B) (step : A → Exchange B)
      → Follows start m s
      → ((a : A) → Follows start (act a) (step a))
      → Follows start (m >>= act) (s >>= step)
  Follows-bind m s act step first follow = record {
    at = λ w in_time.
        Follows-rest act step follow (m w) (s (view w)) w (view w) (first.at w in_time);
  }

pub ruleset follows_rules = (Follows-lift, Follows-bind)
