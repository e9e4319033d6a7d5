-- ===== src/Auth/Run/Agrees.antt =====
-- What a handshake that succeeds has agreed on.
use embed_beetroot_hw_2_7_pr.Prelude.{
  ℕ, ◌≤◌, ◌≡◌, refl, ap, ap₂, ◌∙◌, arith, List, ◌++◌, ltb, length, take, drop, length-take, get_or,
  Result, EspErr, invalid_size, ok, err, of_ok, not_returned,
}
use embed_beetroot_hw_2_7_pr.Packet.Reassembly.{river2_framebuf_init, river2_framebuf_free}
use embed_beetroot_hw_2_7_pr.Session.Cbc.{take_whole}
use embed_beetroot_hw_2_7_pr.Session.{Session, river2_session_decrypt}
use embed_beetroot_hw_2_7_pr.Config.{EcoflowConfig}
use embed_beetroot_hw_2_7_pr.Auth.{World, Platform, lookup_position, derive_session_key}
use embed_beetroot_hw_2_7_pr.Auth.Run.{
  long_enough, exchange_with, exchange_keys, request_session_key, wake_up, authenticate, handshake,
  river2_auth_run,
}
use embed_beetroot_hw_2_7_pr.Auth.Replies.{status_verdict, auth_verdict, judge, await}
use embed_beetroot_hw_2_7_pr.Auth.Run.Returns.{
  Of, Of-map, Returns, Returns-ok, returns_rules, Returns-bind, await-Ended,
}
use embed_beetroot_hw_2_7_pr.Auth.Run.Frees.{handshake-Keeps}
use embed_beetroot_hw_2_7_pr.Auth.Run.Agreed.{
  Shared, Derived, Replied, Wakes, Authenticates, Agreed, secret_from, derived_key, judged_well,
  status_waits, auth_waits, status_accepts, auth_accepts, seed_bytes,
}

module _ (p : Platform) where
  exchange_keys-Shared : Returns (Shared p) (exchange_keys p)
  unfolding exchange_keys exchange_with
  exchange_keys-Shared = search (returns_rules, secret_from) depth 14

  -- The key that an answer gives.
  pub key_with :
      (cfg : EcoflowConfig) (interim : Session) (answer plain decrypted key : List ℕ)
      → river2_session_decrypt p.psa interim answer (p.stack 64) 64 ≡ ok plain
      → long_enough plain ≡ ok decrypted
      → derive_session_key p.psa cfg (take 2 (drop 16 decrypted)) (take 16 decrypted) ≡ ok key
      → (derived : Derived p cfg interim (record { key = key; iv = interim.iv })) × (derived.answer
          ≡ answer)
  unfolding long_enough
  key_with cfg interim answer plain decrypted key opened long made =
      let enough = not_returned (ltb (length plain) 18) invalid_size (ok plain) long in
      let same : plain ≡ decrypted = of_ok enough.1 in
      let seed = drop 16 decrypted in
      let found = derived_key p.psa cfg (take 2 seed) (take 16 decrypted) key made in
      let place : lookup_position (get_or (take 2 seed) 0 0) (get_or (take 2 seed) 1 0)
          ≡ lookup_position (get_or seed 0 0) (get_or seed 1 0) =
        ap₂ lookup_position (seed_bytes seed).0 (seed_bytes seed).1 in
      let long : 18 ≤ length decrypted = ground (arith, enough.0, ap length same) in
      let derived : Derived p cfg interim (record { key = key; iv = interim.iv }) = record {
        answer = answer;
        plain = decrypted;
        opened = opened ∙ ap ok same;
        long = long;
        position = lookup_position (get_or seed 0 0) (get_or seed 1 0);
        placed = refl;
        inside = omega (arith, found.0, place);
        key =
            found.1
            ∙ ap₂
                (λ pos srand. p.psa.hash_compute_md5 (take 16 (drop pos cfg.lookup_table) ++ srand))
                place (take_whole 16 (take 16 decrypted) (omega (arith, length-take 16 decrypted)));
        iv = refl;
      } in
      (derived, refl)

  key_from :
      (cfg : EcoflowConfig) (interim : Session) (answer plain decrypted key : List ℕ)
      → river2_session_decrypt p.psa interim answer (p.stack 64) 64 ≡ ok plain
      → long_enough plain ≡ ok decrypted
      → derive_session_key p.psa cfg (take 2 (drop 16 decrypted)) (take 16 decrypted) ≡ ok key
      → Derived p cfg interim (record { key = key; iv = interim.iv })
  key_from cfg interim answer plain decrypted key opened long made =
      (key_with cfg interim answer plain decrypted key opened long made).0

  request_session_key-Derived :
      (cfg : EcoflowConfig) (interim : Session)
      → Returns (Derived p cfg interim) (request_session_key p cfg interim)
  unfolding request_session_key
  request_session_key-Derived cfg interim = search (returns_rules, key_from) depth 14

  status_replied :
      (session : Session)
      → Returns (λ done. Replied p session Wakes) (await (judge p session status_verdict))
  status_replied session = record {
    at = λ w.
        Of-map (judged_well p session status_verdict Wakes status_waits status_accepts)
          ((await (judge p session status_verdict) w).0)
          ((await-Ended (judge p session status_verdict)).at w);
  }

  wake_up-Wakes :
      (session : Session) → Returns (λ done. Replied p session Wakes) (wake_up p session)
  unfolding wake_up
  wake_up-Wakes session = search (returns_rules, status_replied) depth 14

  auth_replied :
      (session : Session)
      → Returns (λ done. Replied p session Authenticates) (await (judge p session auth_verdict))
  auth_replied session = record {
    at = λ w.
        Of-map (judged_well p session auth_verdict Authenticates auth_waits auth_accepts)
          ((await (judge p session auth_verdict) w).0)
          ((await-Ended (judge p session auth_verdict)).at w);
  }

  authenticate-Authenticates :
      (cfg : EcoflowConfig) (dev_serial : List ℕ) (session : Session)
      → Returns (λ done. Replied p session Authenticates) (authenticate p cfg dev_serial session)
  unfolding authenticate
  authenticate-Authenticates cfg dev_serial session = search (returns_rules, auth_replied) depth 14

  handshake-Agreed :
      (cfg : EcoflowConfig) (dev_serial : List ℕ)
      → Returns (Agreed p cfg) (handshake p cfg dev_serial)
  unfolding handshake
  handshake-Agreed cfg dev_serial =
      Returns-bind (Shared p) (exchange_keys p) _ exchange_keys-Shared (λ interim shared.
        Returns-bind (Derived p cfg interim) (request_session_key p cfg interim) _
          (request_session_key-Derived cfg interim)
          (λ session derived.
            Returns-bind (λ done. Replied p session Wakes) (wake_up p session) _
              (wake_up-Wakes session)
              (λ done woken.
                Returns-bind (λ done. Replied p session Authenticates)
                  (authenticate p cfg dev_serial session) _
                  (authenticate-Authenticates cfg dev_serial session)
                  (λ done' authenticated. Returns-ok session (record {
                    interim = interim;
                    shared = shared;
                    derived = derived;
                    woken = woken;
                    authenticated = authenticated;
                  })))))

  handshake_end :
      (cfg : EcoflowConfig) (before : Session) (r : Result Session) (w : World) (n : ℕ)
      → Of (Agreed p cfg) r
      → w.contexts ≡ n
      → (let w'' = record w { fb = river2_framebuf_free w.fb } in
          let (code, session, w') : Result (Unit {0}) × Session × World = elim r [
            | ok session ↦ (ok tt, session, w'')
            | err e ↦ (err e, before, w'')
          ] in
          (code ≡ ok tt → Agreed p cfg session)
          × ((e : EspErr) → code ≡ err e → session ≡ before)
          × (w'.contexts ≡ n)
          × (w'.fb ≡ river2_framebuf_init))
  unfolding river2_framebuf_free
  handshake_end cfg before (ok session) w n agreed kept =
      ((λ succeeded. agreed), (λ e failed. cc), kept, refl)
  handshake_end cfg before (err e) w n agreed kept =
      ((λ succeeded. cc), (λ e' failed. refl), kept, refl)

-- Whatever happens on the way, as long as the hash does not fail. After a success: the caller's
-- session comes from the shared secret
-- of the generated key pair and a valid public key of 40 bytes; its key is the MD5 of sixteen bytes
-- inside the lookup table, at the place that the device's answer names, and of the answer's first
-- sixteen bytes, and its iv is the MD5 of the secret; a reply that was decrypted under it came from
-- the authentication address, and one said that the authentication succeeded or was of another
-- kind. After an error the caller's session is as it was. On every path as many ECDH contexts are
-- allocated as before, and the reassembly buffer is given back.
pub river2_auth_run-Agreed :
    (p : Platform) (cfg : EcoflowConfig) (dev_serial : List ℕ) (before : Session) (w : World)
    → (let (code, session, w') = river2_auth_run p cfg dev_serial before w in
        (code ≡ ok tt → Agreed p cfg session)
        × ((e : EspErr) → code ≡ err e → session ≡ before)
        × (w'.contexts ≡ w.contexts)
        × (w'.fb ≡ river2_framebuf_init))
unfolding river2_auth_run
river2_auth_run-Agreed p cfg dev_serial before w =
    let w0 = record w { fb = river2_framebuf_init } in
    let (r, w') = handshake p cfg dev_serial w0 in
    handshake_end p cfg before r w' w.contexts ((handshake-Agreed p cfg dev_serial).at w0)
      ((handshake-Keeps p cfg dev_serial).at w0)
