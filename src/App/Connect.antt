-- ===== src/App/Connect.antt =====
-- When the connection is taken for authenticated.
use embed_beetroot_hw_2_7_pr.Prelude.{
  ℕ, ◌≡◌, ◌↔◌, refl, ap, sym, ◌∙◌, true, false, Bool-cases, inl, inr, Option, none, some, List, [],
  ◌∷◌, ◌++◌, map, ok, err, EspErr, fail, Result-cases,
}
use embed_beetroot_hw_2_7_pr.App.{
  has_bit, ble_evt_host_sync, ble_evt_connected, ble_evt_connect_error, wait_host_sync, connecting,
  Connector, connect_step, after_start, next_wait, connect_loop, connect_and_authenticate,
}

-- Events that change nothing: before the host is in sync, and while the connection is made.
abbrev pub AreEarly : List ℕ → Type 0
AreEarly [] = Unit
AreEarly (bits ∷ more) = (has_bit bits ble_evt_host_sync ≡ false) × AreEarly more

abbrev pub AreStray : List ℕ → Type 0
AreStray [] = Unit
AreStray (bits ∷ more) =
    (has_bit bits ble_evt_connect_error ≡ false)
    × (has_bit bits ble_evt_connected ≡ false)
    × AreStray more

-- The end of a connection that was started.
pub record Finishes {S : Type 0} (c : Connector S) (waits : List (Option ℕ)) (s : S) : Type 0 where
  pub stray : List ℕ
  pub up : ℕ
  pub rest : List (Option ℕ)
  pub order : waits ≡ map some stray ++ some up ∷ rest
  pub are_stray : AreStray stray
  pub no_error : has_bit up ble_evt_connect_error ≡ false
  pub is_up : has_bit up ble_evt_connected ≡ true
  pub authenticates : c.auth_run ≡ ok s

-- The whole: the host comes into sync, the connection is started, and then finishes.
pub record Connects {S : Type 0} (c : Connector S) (waits : List (Option ℕ)) (s : S) : Type 0 where
  pub early : List ℕ
  pub synced : ℕ
  pub later : List (Option ℕ)
  pub order : waits ≡ map some early ++ some synced ∷ later
  pub are_early : AreEarly early
  pub in_sync : has_bit synced ble_evt_host_sync ≡ true
  pub starts : c.start_connect ≡ ok tt
  pub finishes : Finishes c later s

module _ {S : Type 0} (c : Connector S) (bits : ℕ) (waits : List (Option ℕ)) where
  loop_error :
      has_bit bits ble_evt_connect_error ≡ true
      → connect_loop c connecting (some bits ∷ waits) ≡ err fail
  unfolding connect_loop connect_step next_wait after_start
  loop_error error = rw error refl

  loop_up :
      has_bit bits ble_evt_connect_error ≡ false
      → has_bit bits ble_evt_connected ≡ true
      → connect_loop c connecting (some bits ∷ waits) ≡ c.auth_run
  unfolding connect_loop connect_step next_wait after_start
  loop_up fine up = rw (fine, up) refl

  loop_down :
      has_bit bits ble_evt_connect_error ≡ false
      → has_bit bits ble_evt_connected ≡ false
      → connect_loop c connecting (some bits ∷ waits) ≡ connect_loop c connecting waits
  unfolding connect_loop connect_step next_wait after_start
  loop_down fine down = rw (fine, down) refl

  loop_early :
      has_bit bits ble_evt_host_sync ≡ false
      → connect_loop c wait_host_sync (some bits ∷ waits) ≡ connect_loop c wait_host_sync waits
  unfolding connect_loop connect_step next_wait after_start
  loop_early early = rw early refl

  loop_starts :
      has_bit bits ble_evt_host_sync ≡ true
      → c.start_connect ≡ ok tt
      → connect_loop c wait_host_sync (some bits ∷ waits) ≡ connect_loop c connecting waits
  unfolding connect_loop connect_step next_wait after_start
  loop_starts synced started =
      rw synced
        (ap (λ r. next_wait (λ state'. connect_loop c state' waits) (after_start r)) started)

  loop_refused :
      (e : EspErr)
      → has_bit bits ble_evt_host_sync ≡ true
      → c.start_connect ≡ err e
      → connect_loop c wait_host_sync (some bits ∷ waits) ≡ err e
  unfolding connect_loop connect_step next_wait after_start
  loop_refused e synced refused =
      rw synced
        (ap (λ r. next_wait (λ state'. connect_loop c state' waits) (after_start r)) refused)

module _ {S : Type 0} (c : Connector S) (s : S) where
  finishing :
      (waits : List (Option ℕ)) → connect_loop c connecting waits ≡ ok s → Finishes c waits s
  unfolding connect_loop
  finishing [] h = cc
  finishing (none ∷ waits) h = cc
  finishing (some bits ∷ waits) h = elim (Bool-cases (has_bit bits ble_evt_connect_error)) [
    | inl error ↦ let refused = sym (loop_error c bits waits error) ∙ h in cc
    | inr fine ↦ elim (Bool-cases (has_bit bits ble_evt_connected)) [
      | inl up ↦ record {
        stray = [];
        up = bits;
        rest = waits;
        order = refl;
        are_stray = tt;
        no_error = fine;
        is_up = up;
        authenticates = sym (loop_up c bits waits fine up) ∙ h;
      }
      | inr down ↦
          let f = finishing waits (sym (loop_down c bits waits fine down) ∙ h) in
          record {
            stray = bits ∷ f.stray;
            up = f.up;
            rest = f.rest;
            order = ap (λ l. some bits ∷ l) f.order;
            are_stray = (fine, down, f.are_stray);
            no_error = f.no_error;
            is_up = f.is_up;
            authenticates = f.authenticates;
          }
    ]
  ]

  finished :
      (stray : List ℕ) (up : ℕ) (rest : List (Option ℕ))
      → AreStray stray
      → has_bit up ble_evt_connect_error ≡ false
      → has_bit up ble_evt_connected ≡ true
      → connect_loop c connecting (map some stray ++ some up ∷ rest) ≡ c.auth_run
  finished [] up rest h fine is_up = loop_up c up rest fine is_up
  finished (bits ∷ stray) up rest h fine is_up =
      loop_down c bits (map some stray ++ some up ∷ rest) h.0 h.1
      ∙ finished stray up rest h.2 fine is_up

  connecting_from :
      (waits : List (Option ℕ)) → connect_loop c wait_host_sync waits ≡ ok s → Connects c waits s
  unfolding connect_loop
  connecting_from [] h = cc
  connecting_from (none ∷ waits) h = cc
  connecting_from (some bits ∷ waits) h = elim (Bool-cases (has_bit bits ble_evt_host_sync)) [
    | inl synced ↦ elim (Result-cases c.start_connect) [
      | inl (done, started) ↦ record {
        early = [];
        synced = bits;
        later = waits;
        order = refl;
        are_early = tt;
        in_sync = synced;
        starts = started;
        finishes = finishing waits (sym (loop_starts c bits waits synced started) ∙ h);
      }
      | inr (e, refused) ↦ let failed = sym (loop_refused c bits waits e synced refused) ∙ h in cc
    ]
    | inr early ↦
        let f = connecting_from waits (sym (loop_early c bits waits early) ∙ h) in
        record {
          early = bits ∷ f.early;
          synced = f.synced;
          later = f.later;
          order = ap (λ l. some bits ∷ l) f.order;
          are_early = (early, f.are_early);
          in_sync = f.in_sync;
          starts = f.starts;
          finishes = f.finishes;
        }
  ]

  started :
      (early : List ℕ) (synced : ℕ) (later : List (Option ℕ))
      → AreEarly early
      → has_bit synced ble_evt_host_sync ≡ true
      → c.start_connect ≡ ok tt
      → connect_loop c wait_host_sync (map some early ++ some synced ∷ later)
        ≡ connect_loop c connecting later
  started [] synced later h in_sync starts = loop_starts c synced later in_sync starts
  started (bits ∷ early) synced later h in_sync starts =
      loop_early c bits (map some early ++ some synced ∷ later) h.0
      ∙ started early synced later h.1 in_sync starts

  -- The function succeeds with a session exactly when, with no wait timing out before, the host
  -- comes into sync, the connection can be started, a later event reports it and no error came up
  -- to then, and the authentication gives that session.
  pub connect_and_authenticate-Connects :
      (waits : List (Option ℕ)) → (connect_and_authenticate c waits ≡ ok s) ↔ Connects c waits s
  unfolding connect_and_authenticate
  connect_and_authenticate-Connects waits = (
    connecting_from waits,
    (λ f.
        let g = f.finishes in
        ap (connect_loop c wait_host_sync) f.order
        ∙ started f.early f.synced f.later f.are_early f.in_sync f.starts
        ∙ ap (connect_loop c connecting) g.order
        ∙ finished g.stray g.up g.rest g.are_stray g.no_error g.is_up
        ∙ g.authenticates),
  )
