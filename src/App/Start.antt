-- ===== src/App/Start.antt =====
-- `app_main` up to the event loop, with the handshake in it.
use embed_beetroot_hw_2_7_pr.Prelude.{
  ℕ, ◌≡◌, ◌↔◌, refl, sym, ap, ◌∙◌, List, Result, ok, err, and_then, of_ok, subst,
}
use embed_beetroot_hw_2_7_pr.Session.{Session}
use embed_beetroot_hw_2_7_pr.Config.{EcoflowConfig}
use embed_beetroot_hw_2_7_pr.Auth.{World, Platform}
use embed_beetroot_hw_2_7_pr.Auth.Run.{river2_auth_run}
use embed_beetroot_hw_2_7_pr.Auth.Run.Agreed.{Agreed}
use embed_beetroot_hw_2_7_pr.Auth.Run.Agrees.{river2_auth_run-Agreed}
use embed_beetroot_hw_2_7_pr.App.{Startup, connect_and_authenticate, app_start}
use embed_beetroot_hw_2_7_pr.App.Connect.{Connects, connect_and_authenticate-Connects}

-- Every call succeeded, in their order, and the telemetry has the session that was agreed on.
pub record Started {S : Type 0} (s : Startup S) (session : S) : Type 0 where
  pub flash : s.nvs_flash_init ≡ ok tt
  pub config : s.read_config ≡ ok tt
  pub service : s.install_isr_service ≡ ok tt
  pub ac_button : s.ac_button ≡ ok tt
  pub dc_button : s.dc_button ≡ ok tt
  pub ble : s.ble_init ≡ ok tt
  pub connects : Connects s.connector s.waits session
  pub telemetry : s.telemetry_start session ≡ ok tt

-- A call that had to succeed.
needed {ℓ} :
    {A : Type ℓ} {B : Type ℓ} (r : Result A) (next : A → Result B) {b : B}
    → and_then r next ≡ ok b
    → (a : A) × (r ≡ ok a) × (next a ≡ ok b)
needed (ok a) next h = (a, refl, h)
needed (err e) next h = cc

started : {S : Type 0} (s : Startup S) (session : S) → app_start s ≡ ok session → Started s session
unfolding app_start
started s session h =
    let (flash, flash_ok, h1) = needed s.nvs_flash_init _ h in
    let (config, config_ok, h2) = needed s.read_config _ h1 in
    let (service, service_ok, h3) = needed s.install_isr_service _ h2 in
    let (ac, ac_ok, h4) = needed s.ac_button _ h3 in
    let (dc, dc_ok, h5) = needed s.dc_button _ h4 in
    let (ble, ble_ok, h6) = needed s.ble_init _ h5 in
    let (got, got_ok, h7) = needed (connect_and_authenticate s.connector s.waits) _ h6 in
    let (done, done_ok, h8) = needed (s.telemetry_start got) _ h7 in
    let same : got ≡ session = of_ok h8 in
    record {
      flash = flash_ok;
      config = config_ok;
      service = service_ok;
      ac_button = ac_ok;
      dc_button = dc_ok;
      ble = ble_ok;
      connects =
          (connect_and_authenticate-Connects s.connector session s.waits).0 (got_ok ∙ ap ok same);
      telemetry = ap s.telemetry_start (sym same) ∙ done_ok;
    }

-- `app_main` reaches the event loop with a session exactly when every call that `app_main` makes
-- before it succeeds, the connection and the authentication as `Connects` says, and the telemetry
-- is started with that session.
pub app_start-Started :
    {S : Type 0} (s : Startup S) (session : S) → (app_start s ≡ ok session) ↔ Started s session
unfolding app_start
app_start-Started s session = (
  started s session,
  (λ f.
      let connected =
        (connect_and_authenticate-Connects s.connector session s.waits).1 f.connects in
      rw (f.flash, f.config, f.service, f.ac_button, f.dc_button, f.ble, connected, f.telemetry)
        refl),
)

-- What the authentication gives the connection.
abbrev pub session_of_run : {W : Type 0} → Result (Unit {0}) × Session × W → Result Session
session_of_run (code, session, w) = and_then code (λ done. ok session)

run_agreed :
    {W : Type 0} (P : Session → Type 0) (run : Result (Unit {0}) × Session × W) (session : Session)
    → (run.0 ≡ ok tt → P run.1)
    → session_of_run run ≡ ok session
    → P session
run_agreed P (ok done, got, w) session holds h = subst P (of_ok h) (holds refl)
run_agreed P (err e, got, w) session holds h = cc

-- With the handshake as the authentication: a session with which the event loop is reached, and
-- which the telemetry has, is one that the handshake agreed on.
pub app_start-Agreed :
    (p : Platform) (cfg : EcoflowConfig) (dev_serial : List ℕ) (before : Session) (w : World)
    (s : Startup Session) (session : Session)
    → s.connector.auth_run ≡ session_of_run (river2_auth_run p cfg dev_serial before w)
    → app_start s ≡ ok session
    → Agreed p cfg session × (s.telemetry_start session ≡ ok tt)
app_start-Agreed p cfg dev_serial before w s session runs h =
    let f = started s session h in
    let run = river2_auth_run p cfg dev_serial before w in
    (
      run_agreed (Agreed p cfg) run session (river2_auth_run-Agreed p cfg dev_serial before w).0
          (sym runs ∙ f.connects.finishes.authenticates),
      f.telemetry,
    )
