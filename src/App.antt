-- ===== src/App.antt =====
-- main/src/app_main.c: the connection and authentication, and the loop that switches the outputs.
pub mod Connect
pub mod Start
pub mod Toggle
mod Tests
use embed_beetroot_hw_2_7_pr.Prelude.{
  ℕ, zero, suc, ◌+◌, Bool, true, false, not, ◌&&◌, bit_and, Option, none, some, List, [], ◌∷◌, ◌++◌,
  ◌==◌, if◌then◌else◌, Result, ok, err, and_then, EspErr, fail, timeout,
}
use embed_beetroot_hw_2_7_pr.Telemetry.{evt_battery_level, evt_dc_state, evt_ac_state}

abbrev pub ble_evt_host_sync : ℕ
ble_evt_host_sync = 1

abbrev pub ble_evt_connected : ℕ
ble_evt_connected = 2

abbrev pub ble_evt_connect_error : ℕ
ble_evt_connect_error = 4

abbrev pub ble_evt_disconnected : ℕ
ble_evt_disconnected = 8

abbrev pub toggle_ac_port_evt : ℕ
toggle_ac_port_evt = 32

abbrev pub toggle_dc_port_evt : ℕ
toggle_dc_port_evt = 64

-- `bits & mask`, as a test.
abbrev pub has_bit : ℕ → ℕ → Bool
has_bit bits mask = not (bit_and bits mask == 0)

pub data AppState : Type 0 where
  wait_host_sync connecting streaming : AppState

-- What the connection calls: `river2_ble_start_connect` with the configured address, and
-- `river2_auth_run`, which is `Auth.Run.river2_auth_run` and gives the session.
pub record Connector (S : Type 0) : Type 0 where
  pub start_connect : Result (Unit {0})
  pub auth_run : Result S

-- What `switch (state)` does with the bits: go on in a state, or return.
pub data Progress (S : Type 0) : Type 0 where
  stay : AppState → Progress S
  returns : Result S → Progress S

unfoldable pub after_start : {S : Type 0} → Result (Unit {0}) → Progress S
after_start (ok done) = stay connecting
after_start (err e) = returns (err e)

unfoldable pub connect_step : {S : Type 0} → Connector S → AppState → ℕ → Progress S
unfolding after_start
connect_step c wait_host_sync bits =
    if not (has_bit bits ble_evt_host_sync)
    then stay wait_host_sync
    else after_start c.start_connect
connect_step c connecting bits =
    if has_bit bits ble_evt_connect_error
    then returns (err fail)
    else if not (has_bit bits ble_evt_connected)
    then stay connecting
    else returns c.auth_run
connect_step c streaming bits = stay streaming

unfoldable pub next_wait : {S : Type 0} → (AppState → Result S) → Progress S → Result S
next_wait rest (stay state) = rest state
next_wait rest (returns r) = r

-- The loop over what `xTaskNotifyWait` gives: the bits, or `none` where it timed out. It timed out
-- where the list ends.
unfoldable pub connect_loop : {S : Type 0} → Connector S → AppState → List (Option ℕ) → Result S
unfolding connect_step next_wait
connect_loop c state [] = err timeout
connect_loop c state (none ∷ waits) = err timeout
connect_loop c state (some bits ∷ waits) =
    next_wait (λ state'. connect_loop c state' waits) (connect_step c state bits)

unfoldable pub connect_and_authenticate : {S : Type 0} → Connector S → List (Option ℕ) → Result S
unfolding connect_loop
connect_and_authenticate c waits = connect_loop c wait_host_sync waits

-- The locals of the event loop, and the commands that were sent, the latest first.
pub data Command : Type 0 where
  set_ac set_dc : Bool → Command

pub record Loop : Type 0 where
  pub ac_on : Bool
  pub dc_on : Bool
  pub ac_state_known : Bool
  pub dc_state_known : Bool
  pub sent : List Command

unfoldable pub loop_init : Loop
loop_init = record {
  ac_on = false;
  dc_on = false;
  ac_state_known = false;
  dc_state_known = false;
  sent = [];
}

-- What a round finds: the bits, the two values of the telemetry, and whether a command that it
-- sends succeeds.
pub record Round : Type 0 where
  pub bits : ℕ
  pub ac_enabled : ℕ
  pub dc_out_state : ℕ
  pub ac_result : Bool
  pub dc_result : Bool

unfoldable pub learn_ac : Round → Loop → Loop
learn_ac r s =
    if has_bit r.bits evt_ac_state
    then record s { ac_on = not (r.ac_enabled == 0); ac_state_known = true }
    else s

unfoldable pub learn_dc : Round → Loop → Loop
learn_dc r s =
    if has_bit r.bits evt_dc_state
    then record s { dc_on = not (r.dc_out_state == 0); dc_state_known = true }
    else s

unfoldable pub toggle_ac : Round → Loop → Loop
toggle_ac r s =
    if has_bit r.bits toggle_ac_port_evt && s.ac_state_known
    then (let want_on = not s.ac_on in
        let s' = record s { sent = set_ac want_on ∷ s.sent } in
        if r.ac_result then record s' { ac_on = want_on } else s')
    else s

unfoldable pub toggle_dc : Round → Loop → Loop
toggle_dc r s =
    if has_bit r.bits toggle_dc_port_evt && s.dc_state_known
    then (let want_on = not s.dc_on in
        let s' = record s { sent = set_dc want_on ∷ s.sent } in
        if r.dc_result then record s' { dc_on = want_on } else s')
    else s

-- The body of the event loop.
unfoldable pub loop_round : Round → Loop → Loop
unfolding learn_ac learn_dc toggle_ac toggle_dc
loop_round r s = toggle_dc r (toggle_ac r (learn_dc r (learn_ac r s)))

unfoldable pub event_loop : List Round → Loop → Loop
unfolding loop_round
event_loop [] s = s
event_loop (r ∷ rounds) s = event_loop rounds (loop_round r s)

-- The calls of `app_main` up to the event loop, in their order, as what each returns.
pub record Startup (S : Type 0) : Type 0 where
  pub nvs_flash_init : Result (Unit {0})
  pub read_config : Result (Unit {0})
  pub install_isr_service : Result (Unit {0})
  pub ac_button : Result (Unit {0})
  pub dc_button : Result (Unit {0})
  pub ble_init : Result (Unit {0})
  pub waits : List (Option ℕ)
  pub connector : Connector S
  pub telemetry_start : S → Result (Unit {0})

-- The first error ends `app_main`; otherwise the event loop begins with the session.
unfoldable pub app_start : {S : Type 0} → Startup S → Result S
app_start s = and_then s.nvs_flash_init λ flash. and_then s.read_config λ config.
    and_then s.install_isr_service λ service. and_then s.ac_button λ ac. and_then s.dc_button λ dc.
      and_then s.ble_init λ ble.
        and_then (connect_and_authenticate s.connector s.waits)
          λ session. and_then (s.telemetry_start session) λ started. ok session
