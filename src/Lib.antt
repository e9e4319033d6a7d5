-- ===== src/Lib.antt =====
-- A model of the ESP32 firmware that talks to an EcoFlow River 2 Pro power station over Bluetooth LE,
-- and of what makes it correct.
--
-- The parts and how they interact. Notifications arrive in the BLE client (Ble), which queues them;
-- the handshake (Auth) and the telemetry task (Telemetry) take them from the queue, feed them to the
-- reassembler (Packet.Reassembly), and decrypt the data frames with the session (Session); the
-- packets inside are parsed by Packet.Inner. In the other direction a command (Commands) is built as
-- an inner packet, encrypted, wrapped by Packet.Outer and written by the BLE client. Both packet
-- layers use the checksums of Crc. The application (App) connects, authenticates and then toggles
-- the outputs on button presses (Pushbutton); Config and Ecdh serve the handshake.
--
-- Which file models which part, by its path in the repository:
--   Crc                  main/src/river2_crc.c: the tables, built on the first call, and both loops
--   Packet.Inner, .Outer main/src/river2_packet.c: river2_inner_build, river2_inner_parse,
--                        river2_outer_build, with the caller's buffer and its capacity
--   Packet.Reassembly    main/src/river2_packet.c: river2_framebuf_*, with realloc's failures
--   Session              main/src/river2_auth.c: river2_md5, aes_cbc_encrypt_pkcs7,
--                        river2_session_decrypt
--   Auth                 main/src/river2_auth.c: wait_for_frame, send_frame, derive_session_key,
--                        river2_send_command
--   Auth.Replies, .Run   main/src/river2_auth.c: the loops that await a reply, and the four steps of
--                        river2_auth_run
--   Auth.Protocol        the handshake on a sequence of frames, which river2_auth_run refines: there
--                        is no clock, no buffer and no notification
--   Ble                  main/src/ble_client.c: the discovery callbacks, the GAP events, the queue,
--                        in Ble.Init what river2_ble_init asks of the SDK and
--                        in Ble.Calls what the program asks of the client
--   Commands             main/src/river2_commands.c
--   Telemetry            main/src/river2_telemetry.c: telemetry_task
--   App                  main/src/app_main.c: connect_and_authenticate, app_main
--   Config, Ecdh, Pushbutton   the files of those names
-- The children of a module hold its specifications and proofs, and Tests its examples.
--
-- How the code is rendered. A byte is a natural number below 256, and a buffer is a list of them;
-- casts and shifts keep their wrap-around (Prelude.Word). A size_t has 32 bits. Static variables and
-- objects that a function changes are records that it takes and returns; of the ECDH contexts it is
-- counted how many are allocated. An esp_err_t is a Result (Prelude.Results). Logging is left out.
--
-- Parameters. PSA Crypto (Session.Psa), micro-ecc (Ecdh.Ecc), NVS (Config.Nvs), the codes that NimBLE
-- returns, memory, the clock and what the queue delivers are arguments of the definitions. The
-- hypotheses on PSA Crypto are in Session.Cbc: its calls do what the documentation says of CBC, and
-- CBC decryption undoes encryption; the hash, whose status the code ignores, is taken to succeed. The
-- timer of a button is the SDK's (Pushbutton.EspTimer), and Pushbutton.Debounce states what is
-- documented of it. Ble.Steps says when NimBLE calls back.
--
-- Bounds and fuel. river2_framebuf_extract has fuel for each buffered byte, since each round that
-- goes on drops two; wait_for_frame recurses on the readings of the clock and the queue, and takes
-- frames with fuel for each buffered byte; the loops that await a reply have fuel for each byte that
-- is buffered or may come in, since a reply uses up eight.
--
-- Not modelled: logging; task creation, stacks and priorities; ensure_psa_crypto_init and ensure_rng,
-- which call a library once; micro-ecc.
pub mod Prelude
pub mod Crc
pub mod Packet
pub mod Session
pub mod Ecdh
pub mod Config
pub mod Auth
pub mod Ble
pub mod Commands
pub mod Telemetry
pub mod App
pub mod Pushbutton
