-- ===== src/App/Tests.antt =====
-- The event loop and the connection on concrete events.
use embed_beetroot_hw_2_7_pr.Prelude.{
  ℕ, ◌≡◌, ◌↔◌, refl, true, some, [], ◌∷◌, ok, Result, replicate, ap₂, and_then,
}
use embed_beetroot_hw_2_7_pr.App.{
  Startup, app_start, loop_init, Round, event_loop, Connector, connect_and_authenticate,
}
use embed_beetroot_hw_2_7_pr.App.Toggle.{
  ac_output, dc_output, turns, ac_turn, dc_turn, ac_commands, event_loop-turns, event_loop-no_ac,
}
use embed_beetroot_hw_2_7_pr.Session.{Session}
use embed_beetroot_hw_2_7_pr.Session.Sample.{same_blocks, plain_psa-IsCbc, a_session}
use embed_beetroot_hw_2_7_pr.Auth.{World}
use embed_beetroot_hw_2_7_pr.Auth.Run.{river2_auth_run}
use embed_beetroot_hw_2_7_pr.Auth.Run.Agreed.{Agreed}
use embed_beetroot_hw_2_7_pr.Auth.Protocol.Device.{session_of}
use embed_beetroot_hw_2_7_pr.Auth.Protocol.Honest.{river2_auth_run-Talks}
use embed_beetroot_hw_2_7_pr.Auth.Protocol.Sample.{
  a_platform, a_platform-Works, a_platform-Digests, a_config, a_serial, a_secret, talk_world,
}
use embed_beetroot_hw_2_7_pr.Auth.Protocol.Talk.{talk_world-IsInTime, said-Talks, short_id}
use embed_beetroot_hw_2_7_pr.App.Start.{
  Started, session_of_run, app_start-Started, app_start-Agreed,
}
use embed_beetroot_hw_2_7_pr.App.Connect.{Connects, connect_and_authenticate-Connects}

-- A press before any report; the report that the output is off; and a press.
abbrev early_press : Round
early_press = record {
  bits = 32;
  ac_enabled = 255;
  dc_out_state = 255;
  ac_result = true;
  dc_result = true;
}

abbrev reported_off : Round
reported_off = record {
  bits = 256;
  ac_enabled = 0;
  dc_out_state = 255;
  ac_result = true;
  dc_result = true;
}

event_loop-turns_example :
    (ac_output (event_loop (early_press ∷ reported_off ∷ early_press ∷ []) loop_init)
      ≡ turns ac_turn (early_press ∷ reported_off ∷ early_press ∷ []) (ac_output loop_init))
    × (dc_output (event_loop (early_press ∷ reported_off ∷ early_press ∷ []) loop_init)
        ≡ turns dc_turn (early_press ∷ reported_off ∷ early_press ∷ []) (dc_output loop_init))
event_loop-turns_example =
    event_loop-turns (early_press ∷ reported_off ∷ early_press ∷ []) loop_init

event_loop-no_ac_example :
    ac_commands (event_loop (early_press ∷ early_press ∷ []) loop_init).sent ≡ []
event_loop-no_ac_example = event_loop-no_ac (early_press ∷ early_press ∷ []) (refl, (refl, tt))

abbrev a_connector : Connector ℕ
a_connector = record { start_connect = ok tt; auth_run = ok 7 }

connect_and_authenticate-Connects_example :
    (connect_and_authenticate a_connector (some 16 ∷ some 1 ∷ some 32 ∷ some 2 ∷ []) ≡ ok 7)
    ↔ Connects a_connector (some 16 ∷ some 1 ∷ some 32 ∷ some 2 ∷ []) 7
connect_and_authenticate-Connects_example =
    connect_and_authenticate-Connects a_connector 7 (some 16 ∷ some 1 ∷ some 32 ∷ some 2 ∷ [])

-- The whole start, with the handshake of the sample device.
abbrev a_run : Result (Unit {0}) × Session × World
a_run = river2_auth_run a_platform a_config a_serial a_session talk_world

abbrev the_session : Session
the_session = session_of a_platform a_config a_secret 2 1 (replicate 16 9)

abbrev a_startup : Startup Session
a_startup = record {
  nvs_flash_init = ok tt;
  read_config = ok tt;
  install_isr_service = ok tt;
  ac_button = ok tt;
  dc_button = ok tt;
  ble_init = ok tt;
  waits = some 1 ∷ some 2 ∷ [];
  connector = record { start_connect = ok tt; auth_run = session_of_run a_run };
  telemetry_start = λ session. ok tt;
}

a_run-session : session_of_run a_run ≡ ok the_session
a_run-session =
    let (code, session, says) =
      river2_auth_run-Talks a_platform a_platform-Works a_platform-Digests same_blocks same_blocks
        plain_psa-IsCbc a_config a_serial short_id (replicate 40 5) a_secret 2 1 (replicate 16 9)
        a_session talk_world talk_world-IsInTime said-Talks in
    ap₂ (λ code session. and_then code (λ done. ok session)) code session

a_startup-Started : Started a_startup the_session
a_startup-Started = record {
  flash = refl;
  config = refl;
  service = refl;
  ac_button = refl;
  dc_button = refl;
  ble = refl;
  connects = record {
    early = [];
    synced = 1;
    later = some 2 ∷ [];
    order = refl;
    are_early = tt;
    in_sync = refl;
    starts = refl;
    finishes = record {
      stray = [];
      up = 2;
      rest = [];
      order = refl;
      are_stray = tt;
      no_error = refl;
      is_up = refl;
      authenticates = a_run-session;
    };
  };
  telemetry = refl;
}

app_start-Started_example : (app_start a_startup ≡ ok the_session) ↔ Started a_startup the_session
app_start-Started_example = app_start-Started a_startup the_session

a_startup-session : app_start a_startup ≡ ok the_session
a_startup-session = (app_start-Started a_startup the_session).1 a_startup-Started

app_start-Agreed_example :
    Agreed a_platform a_config the_session × (a_startup.telemetry_start the_session ≡ ok tt)
app_start-Agreed_example =
    app_start-Agreed a_platform a_config a_serial a_session talk_world a_startup the_session refl
      a_startup-session
