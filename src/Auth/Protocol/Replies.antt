-- ===== src/Auth/Protocol/Replies.antt =====
-- The replies that a handshake which succeeds has heard, and the tests of the code on them.
use embed_beetroot_hw_2_7_pr.Prelude.{
  ℕ, ◌+◌, ◌≤◌, ◌≡◌, ◌≢◌, refl, sym, ap, ◌∙◌, arith, Bool, true, false, not, ◌||◌, ltb, ◌==◌, ==_iff,
  if◌then◌else◌, List, length, take, drop, get_or, Result, ok, err, invalid_response, not_supported,
  invalid_size, of_ok, not_returned,
}
use embed_beetroot_hw_2_7_pr.Packet.Reassembly.{Frame}
use embed_beetroot_hw_2_7_pr.Session.{Session}
use embed_beetroot_hw_2_7_pr.Config.{EcoflowConfig}
use embed_beetroot_hw_2_7_pr.Ecdh.{river2_ecdh_pubkey_size}
use embed_beetroot_hw_2_7_pr.Auth.{Platform}
use embed_beetroot_hw_2_7_pr.Auth.Run.{dev_pub_size, public_key_reply, session_key_reply}
use embed_beetroot_hw_2_7_pr.Auth.Run.Agreed.{Shared, Derived, Replied, Wakes, Authenticates}
use embed_beetroot_hw_2_7_pr.Auth.Replies.{judge, status_verdict, auth_verdict}
use embed_beetroot_hw_2_7_pr.Auth.Protocol.Takes.{Took, Settled}

-- The first command frame is the device's public key, and has it in its bytes 3 to 42; its curve is
-- none of those with longer keys.
pub record KeyHeard (p : Platform) (frames : List Frame) (interim : Session) (later : List Frame)
    : Type 0 where
  pub reply : List ℕ
  pub took : Took 0x00 frames reply later
  pub kind : get_or reply 0 0 ≡ 0x01
  pub curve :
      (get_or reply 2 0 ≢ 1)
      × (get_or reply 2 0 ≢ 2)
      × (get_or reply 2 0 ≢ 3)
      × (get_or reply 2 0 ≢ 4)
  pub long : 43 ≤ length reply
  pub shared : Shared p interim
  pub peer : shared.peer ≡ take 40 (drop 3 reply)

-- The next command frame is the answer to the session-key request, and what follows its first byte
-- is the ciphertext that the key is derived from.
pub record SeedHeard (p : Platform) (cfg : EcoflowConfig) (interim : Session) (frames : List Frame)
    (session : Session) (later : List Frame) : Type 0 where
  pub reply : List ℕ
  pub took : Took 0x00 frames reply later
  pub kind : get_or reply 0 0 ≡ 0x02
  pub long : 2 ≤ length reply
  pub derived : Derived p cfg interim session
  pub answer : derived.answer ≡ drop 1 reply

-- A data frame that ends the wake-up, and one that ends the authentication.
pub record StatusHeard (p : Platform) (session : Session) (frames later : List Frame) : Type 0 where
  pub reply : List ℕ
  pub settled : Settled (judge p session status_verdict) frames reply later
  pub woken : Replied p session Wakes
  pub same : woken.reply ≡ reply

pub record AuthHeard (p : Platform) (session : Session) (frames later : List Frame) : Type 0 where
  pub reply : List ℕ
  pub settled : Settled (judge p session auth_verdict) frames reply later
  pub authenticated : Replied p session Authenticates
  pub same : authenticated.reply ≡ reply

-- The four replies, each behind the one before it.
pub record Heard (p : Platform) (cfg : EcoflowConfig) (frames : List Frame) (session : Session)
    : Type 0 where
  pub interim : Session
  pub after_key : List Frame
  pub after_seed : List Frame
  pub after_status : List Frame
  pub later : List Frame
  pub key : KeyHeard p frames interim after_key
  pub seed : SeedHeard p cfg interim after_key session after_seed
  pub status : StatusHeard p session after_seed after_status
  pub auth : AuthHeard p session after_status later

of_not : (b : Bool) → not b ≡ false → b ≡ true
of_not true h = refl
of_not false h = sym h

pub short_curve :
    (curve : ℕ) → dev_pub_size curve ≡ 40 → (curve ≢ 1) × (curve ≢ 2) × (curve ≢ 3) × (curve ≢ 4)
unfolding dev_pub_size
short_curve curve e =
    (λ e1. ground arith, λ e2. ground arith, λ e3. ground arith, λ e4. ground arith)

pub key_tests :
    (reply peer : List ℕ)
    → public_key_reply reply ≡ ok peer
    → (get_or reply 0 0 ≡ 0x01)
      × (dev_pub_size (get_or reply 2 0) ≡ 40)
      × (43 ≤ length reply)
      × (peer ≡ take 40 (drop 3 reply))
unfolding public_key_reply
key_tests reply peer e =
    let size = dev_pub_size (get_or reply 2 0) in
    let bad = ltb (length reply) 3 || not (get_or reply 0 0 == 0x01) in
    let key : Result (List ℕ) = ok (take size (drop 3 reply)) in
    let long = if ltb (length reply) (3 + size) then err invalid_size else key in
    let sized = if not (size == river2_ecdh_pubkey_size) then err not_supported else long in
    let h0 = not_returned bad invalid_response sized e in
    let h1 = not_returned (not (size == river2_ecdh_pubkey_size)) not_supported long h0.1 in
    let h2 = not_returned (ltb (length reply) (3 + size)) invalid_size key h1.1 in
    let forty : size ≡ 40 = (==_iff size 40).0 (of_not (size == 40) h1.0) in
    (
      ground (arith, h0.0),
      forty,
      ground (arith, h2.0, forty),
      sym (of_ok h2.1) ∙ ap (λ (n : ℕ). take n (drop 3 reply)) forty,
    )

pub seed_tests :
    (reply ciphertext : List ℕ)
    → session_key_reply reply ≡ ok ciphertext
    → (get_or reply 0 0 ≡ 0x02) × (2 ≤ length reply) × (ciphertext ≡ drop 1 reply)
unfolding session_key_reply
seed_tests reply ciphertext e =
    let bad = ltb (length reply) 2 || not (get_or reply 0 0 == 0x02) in
    let h = not_returned bad invalid_response (ok (drop 1 reply)) e in
    (ground (arith, h.0), ground (arith, h.0), sym (of_ok h.1))
