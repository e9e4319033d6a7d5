-- ===== src/Auth/Protocol/Hears.antt =====
-- What a step of the protocol that succeeds has heard: the frames it took, the value, and the
-- frames that are left. One rule for each way to build a step.
use embed_beetroot_hw_2_7_pr.Prelude.{
  ℕ, ◌≡◌, refl, sym, subst, List, [], ◌∷◌, ◌++◌, Result, ok, err,
}
use embed_beetroot_hw_2_7_pr.Packet.Words.{river2_frame_data}
use embed_beetroot_hw_2_7_pr.Packet.Reassembly.{Frame}
use embed_beetroot_hw_2_7_pr.Session.{Session}
use embed_beetroot_hw_2_7_pr.Auth.{Platform, ◌>>=◌, lift}
use embed_beetroot_hw_2_7_pr.Auth.Protocol.{
  Link, Exchange, put, encode, seal, transmit, transmit_inner,
}

abbrev pub OfOk : {A : Type 0} → (A → List Frame → Type 0) → Result A × Link → Type 0
OfOk Q (ok a, link) = Q a link.incoming
OfOk Q (err e, link) = Unit

pub record Hears {A : Type 0} (frames : List Frame) (Q : A → List Frame → Type 0)
    (step : Exchange A) : Type 0 where
  pub at : (sent : List (List ℕ)) → OfOk Q (step (record { incoming = frames; sent = sent }))

module _ {A : Type 0} {frames : List Frame} {Q : A → List Frame → Type 0} where
  pub Hears-ok : (a : A) → Q a frames → Hears frames Q (lift (ok a))
  Hears-ok a h = record { at = λ sent. h }

module _ {A B : Type 0} {Q : B → List Frame → Type 0} where
  behind :
      (P : A → List Frame → Type 0) (rest : A → Exchange B)
      → ((a : A) (later : List Frame) → P a later → Hears later Q (rest a))
      → (r : Result A × Link) (link0 : Link) → OfOk P r
      → OfOk Q (((λ link. r) >>= rest) link0)
  behind P rest h (ok a, link) link0 holds = (h a link.incoming holds).at link.sent
  behind P rest h (err e, link) link0 holds = tt

module _ {A B : Type 0} {frames : List Frame} {Q : B → List Frame → Type 0} where
  pub Hears-bind_lift :
      (r : Result A) (rest : A → Exchange B)
      → ((a : A) → r ≡ ok a → Hears frames Q (rest a))
      → Hears frames Q (lift r >>= rest)
  Hears-bind_lift (ok a) rest h = h a refl
  Hears-bind_lift (err e) rest h = record { at = λ sent. tt }

  pub Hears-bind :
      (P : A → List Frame → Type 0) (m : Exchange A) (rest : A → Exchange B)
      → Hears frames P m
      → ((a : A) (later : List Frame) → P a later → Hears later Q (rest a))
      → Hears frames Q (m >>= rest)
  Hears-bind P m rest first h = record {
    at = λ sent.
        let link : Link = record { incoming = frames; sent = sent } in
        behind P rest h (m link) link (first.at sent);
  }

-- Nothing is heard while something is sent.
abbrev pub Kept : List Frame → Unit {0} → List Frame → Type 0
Kept frames done later = later ≡ frames

put_result-Kept :
    (link : Link) (bytes : List ℕ) (r : Result (Unit {0}))
    → OfOk (Kept link.incoming) (elim r [
      | err e ↦ (err e, link)
      | ok done ↦ (ok tt, record link { sent = link.sent ++ bytes ∷ [] })
    ])
put_result-Kept link bytes (ok done) = refl
put_result-Kept link bytes (err e) = tt

module _ {frames : List Frame} (p : Platform) where
  put-Kept : (bytes : List ℕ) → Hears frames (Kept frames) (put p bytes)
  unfolding put
  put-Kept bytes = record {
    at = λ sent.
        put_result-Kept (record { incoming = frames; sent = sent }) bytes (p.ble_write sent bytes);
  }

  pub transmit-Kept :
      (frame_type : ℕ) (payload : List ℕ)
      → Hears frames (Kept frames) (transmit p frame_type payload)
  unfolding transmit
  transmit-Kept frame_type payload =
      Hears-bind_lift (encode p frame_type payload) (put p) (λ bytes encoded. put-Kept bytes)

  pub transmit_inner-Kept :
      (c : Session) (src dst cmd_set cmd_id : ℕ) (payload : List ℕ)
      → Hears frames (Kept frames) (transmit_inner p c src dst cmd_set cmd_id payload)
  unfolding transmit_inner
  transmit_inner-Kept c src dst cmd_set cmd_id payload =
      Hears-bind_lift (seal p c src dst cmd_set cmd_id payload) (transmit p river2_frame_data)
        (λ encrypted sealed. transmit-Kept river2_frame_data encrypted)

-- Behind a step that sends.
pub Hears-after :
    {B : Type 0} {frames : List Frame} {Q : B → List Frame → Type 0} (m : Exchange (Unit {0}))
    (rest : Unit {0} → Exchange B)
    → Hears frames (Kept frames) m
    → ((done : Unit {0}) → Hears frames Q (rest done))
    → Hears frames Q (m >>= rest)
Hears-after {frames = frames} {Q = Q} m rest kept h =
    Hears-bind (Kept frames) m rest kept
      (λ done later same. subst (λ l. Hears l Q (rest done)) (sym same) (h done))
