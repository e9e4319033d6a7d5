-- ===== src/Auth/Run/Agreed.antt =====
-- What two ends of a handshake agree on, and the checks of the code that establish it.
use embed_beetroot_hw_2_7_pr.Prelude.{
  ℕ, ◌+◌, ◌≤◌, ◌≡◌, refl, sym, arith, Bool, true, false, not, ◌&&◌, inl, inr, ◌⊎◌, Option, none,
  some, List, [], ◌∷◌, ◌++◌, ltb, ◌==◌, ==_iff, if◌then◌else◌, length, take, drop, get_or, Result,
  EspErr, fail, invalid_arg, invalid_size, invalid_state, ok, err, of_ok, not_returned,
}
use embed_beetroot_hw_2_7_pr.Packet.Inner.{InnerPacket, river2_inner_parse}
use embed_beetroot_hw_2_7_pr.Session.{Psa, Session, river2_md5, river2_session_decrypt}
use embed_beetroot_hw_2_7_pr.Ecdh.{
  EcdhCtx, river2_ecdh_gen_keypair, river2_ecdh_shared_secret, river2_ecdh_pubkey_size,
}
use embed_beetroot_hw_2_7_pr.Config.{EcoflowConfig}
use embed_beetroot_hw_2_7_pr.Auth.{Platform, lookup_position, derive_session_key}
use embed_beetroot_hw_2_7_pr.Auth.Replies.{
  Verdict, keep_waiting, finished, is_status_reply, is_auth_reply, status_verdict, auth_verdict,
  judge,
}
use embed_beetroot_hw_2_7_pr.Auth.Run.Returns.{Ended}

-- The keys of the exchange, the reply of the session-key request, and the two replies that ended
-- the loops.
pub record Shared (p : Platform) (interim : Session) : Type 0 where
  pub ctx : EcdhCtx
  pub our_pub : List ℕ
  pub made : river2_ecdh_gen_keypair p.ecc p.ecdh_memory ≡ ok (ctx, our_pub)
  pub peer : List ℕ
  pub peer_size : length peer ≡ 40
  pub valid : p.ecc.valid_public_key peer ≡ true
  pub secret : List ℕ
  pub agreed : p.ecc.shared_secret peer ctx.priv ≡ some secret
  pub key : interim.key ≡ take 16 secret
  pub iv : interim.iv ≡ p.psa.hash_compute_md5 secret

pub record Derived (p : Platform) (cfg : EcoflowConfig) (interim session : Session) : Type 0 where
  pub answer : List ℕ
  pub plain : List ℕ
  pub opened : river2_session_decrypt p.psa interim answer (p.stack 64) 64 ≡ ok plain
  pub long : 18 ≤ length plain
  pub position : ℕ
  pub placed : position ≡ lookup_position (get_or (drop 16 plain) 0 0) (get_or (drop 16 plain) 1 0)
  pub inside : position + 16 ≤ length cfg.lookup_table
  pub key :
      session.key
      ≡ p.psa.hash_compute_md5 (take 16 (drop position cfg.lookup_table) ++ take 16 plain)
  pub iv : session.iv ≡ interim.iv

pub record Replied (p : Platform) (session : Session) (Accepts : InnerPacket → Type 0)
    : Type 0 where
  pub reply : List ℕ
  pub inner : List ℕ
  pub packet : InnerPacket
  pub opened : river2_session_decrypt p.psa session reply (p.stack 256) 256 ≡ ok inner
  pub parsed : river2_inner_parse inner ≡ some packet
  pub accepts : Accepts packet

abbrev pub Wakes : InnerPacket → Type 0
Wakes packet = (packet.src ≡ 0x35) × (packet.cmd_set ≡ 0x35)

-- Success, or a packet of another kind.
abbrev pub Authenticates : InnerPacket → Type 0
Authenticates packet =
    (is_auth_reply packet ≡ false) ⊎ ((packet.payload_len ≡ 1) × (get_or packet.payload 0 0 ≡ 0))

pub record Agreed (p : Platform) (cfg : EcoflowConfig) (session : Session) : Type 0 where
  pub interim : Session
  pub shared : Shared p interim
  pub derived : Derived p cfg interim session
  pub woken : Replied p session Wakes
  pub authenticated : Replied p session Authenticates

of_not : (b : Bool) → not b ≡ false → b ≡ true
of_not true h = refl
of_not false h = sym h

of_some :
    {A : Type 0} (o : Option A) (e : EspErr) {a : A}
    → (let r : Result A = elim o [ none ↦ err e | some a ↦ ok a ] in r) ≡ ok a
    → o ≡ some a
of_some none e h = cc
of_some (some b) e h = cc

-- The secret of a key that was received.
pub secret_with :
    (p : Platform) (pair : EcdhCtx × List ℕ) (peer secret : List ℕ)
    → river2_ecdh_gen_keypair p.ecc p.ecdh_memory ≡ ok pair
    → river2_ecdh_shared_secret p.ecc pair.0 peer ≡ ok secret
    → (shared : Shared p (record { key = take 16 secret; iv = river2_md5 p.psa secret }))
      × (shared.peer ≡ peer)
unfolding river2_ecdh_shared_secret river2_md5
secret_with p pair peer secret made e =
    let (ctx, our_pub) = pair in
    let made_key : Result (List ℕ) = elim (p.ecc.shared_secret peer ctx.priv) [
      | none ↦ err fail
      | some secret ↦ ok secret
    ] in
    let checked = if not (p.ecc.valid_public_key peer) then err invalid_arg else made_key in
    let sized =
      not_returned (not (length peer == river2_ecdh_pubkey_size)) invalid_size checked e in
    let tested = not_returned (not (p.ecc.valid_public_key peer)) invalid_arg made_key sized.1 in
    let shared : Shared p (record { key = take 16 secret; iv = river2_md5 p.psa secret }) = record {
      ctx = ctx;
      our_pub = our_pub;
      made = made;
      peer = peer;
      peer_size = (==_iff (length peer) 40).0 (of_not (length peer == 40) sized.0);
      valid = of_not (p.ecc.valid_public_key peer) tested.0;
      secret = secret;
      agreed = of_some (p.ecc.shared_secret peer ctx.priv) fail tested.1;
      key = refl;
      iv = refl;
    } in
    (shared, refl)

pub secret_from :
    (p : Platform) (pair : EcdhCtx × List ℕ) (peer secret : List ℕ)
    → river2_ecdh_gen_keypair p.ecc p.ecdh_memory ≡ ok pair
    → river2_ecdh_shared_secret p.ecc pair.0 peer ≡ ok secret
    → Shared p (record { key = take 16 secret; iv = river2_md5 p.psa secret })
secret_from p pair peer secret made e = (secret_with p pair peer secret made e).0

pub derived_key :
    (psa : Psa) (cfg : EcoflowConfig) (seed srand key : List ℕ)
    → derive_session_key psa cfg seed srand ≡ ok key
    → (let pos = lookup_position (get_or seed 0 0) (get_or seed 1 0) in
        (pos + 16 ≤ length cfg.lookup_table)
        × (key ≡ psa.hash_compute_md5 (take 16 (drop pos cfg.lookup_table) ++ take 16 srand)))
unfolding derive_session_key river2_md5
derived_key psa cfg seed srand key e =
    let pos = lookup_position (get_or seed 0 0) (get_or seed 1 0) in
    let made = psa.hash_compute_md5 (take 16 (drop pos cfg.lookup_table) ++ take 16 srand) in
    let fits = not_returned (ltb (length cfg.lookup_table) (pos + 16)) invalid_state (ok made) e in
    (ground (arith, fits.0), sym (of_ok fits.1))

opened_well :
    (verdict : Option InnerPacket → Verdict) (r : Result (List ℕ))
    → (elim r [ err e ↦ finished (err e) | ok inner ↦ verdict (river2_inner_parse inner) ])
      ≡ finished (ok tt)
    → (inner : List ℕ) × (r ≡ ok inner) × (verdict (river2_inner_parse inner) ≡ finished (ok tt))
opened_well verdict (ok inner) h = (inner, refl, h)
opened_well verdict (err e) h = cc

parsed_well :
    (verdict : Option InnerPacket → Verdict) (o : Option InnerPacket)
    → verdict none ≡ keep_waiting
    → verdict o ≡ finished (ok tt)
    → (packet : InnerPacket) × (o ≡ some packet) × (verdict (some packet) ≡ finished (ok tt))
parsed_well verdict none waits h = cc
parsed_well verdict (some packet) waits h = (packet, refl, h)

pub judged_with :
    (p : Platform) (session : Session) (verdict : Option InnerPacket → Verdict)
    (Accepts : InnerPacket → Type 0)
    → verdict none ≡ keep_waiting
    → ((packet : InnerPacket) → verdict (some packet) ≡ finished (ok tt) → Accepts packet)
    → (reply : List ℕ) → judge p session verdict reply ≡ finished (ok tt)
    → (replied : Replied p session Accepts) × (replied.reply ≡ reply)
unfolding judge
judged_with p session verdict Accepts waits accepts reply e =
    let (inner, opened, ends) =
      opened_well verdict (river2_session_decrypt p.psa session reply (p.stack 256) 256) e in
    let (packet, parsed, ends') = parsed_well verdict (river2_inner_parse inner) waits ends in
    let replied : Replied p session Accepts = record {
      reply = reply;
      inner = inner;
      packet = packet;
      opened = opened;
      parsed = parsed;
      accepts = accepts packet ends';
    } in
    (replied, refl)

pub judged_well :
    (p : Platform) (session : Session) (verdict : Option InnerPacket → Verdict)
    (Accepts : InnerPacket → Type 0)
    → verdict none ≡ keep_waiting
    → ((packet : InnerPacket) → verdict (some packet) ≡ finished (ok tt) → Accepts packet)
    → (done : Unit {0}) → Ended (judge p session verdict) done
    → Replied p session Accepts
judged_well p session verdict Accepts waits accepts done (reply, e) =
    (judged_with p session verdict Accepts waits accepts reply e).0

pub status_accepts :
    (packet : InnerPacket) → status_verdict (some packet) ≡ finished (ok tt) → Wakes packet
unfolding status_verdict is_status_reply
status_accepts packet e = ground arith

code_accepts :
    (auth : Bool) (n first : ℕ)
    → (if not auth
        then finished (ok tt)
        else let code = if n == 1 then first else 0xFF in
          if n == 1 && code == 0x00 then finished (ok tt) else finished (err invalid_state))
      ≡ finished (ok tt)
    → (auth ≡ false) ⊎ ((n ≡ 1) × (first ≡ 0))
code_accepts false n first e = inl refl
code_accepts true n first e = inr (ground arith)

pub status_waits : status_verdict none ≡ keep_waiting
unfolding status_verdict
status_waits = refl

pub auth_waits : auth_verdict none ≡ keep_waiting
unfolding auth_verdict
auth_waits = refl

pub auth_accepts :
    (packet : InnerPacket) → auth_verdict (some packet) ≡ finished (ok tt) → Authenticates packet
unfolding auth_verdict
auth_accepts packet e =
    code_accepts (is_auth_reply packet) packet.payload_len (get_or packet.payload 0 0) e

pub seed_bytes :
    (xs : List ℕ)
    → (get_or (take 2 xs) 0 0 ≡ get_or xs 0 0) × (get_or (take 2 xs) 1 0 ≡ get_or xs 1 0)
seed_bytes [] = (refl, refl)
seed_bytes (x ∷ []) = (refl, refl)
seed_bytes (x ∷ y ∷ xs) = (refl, refl)
