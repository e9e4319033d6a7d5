-- ===== src/Commands/Refused.antt =====
-- A command over the BLE client: it is sent whole or not at all, and refused where there is no
-- connection.
use embed_beetroot_hw_2_7_pr.Prelude.{ℕ, ◌≡◌, sym, ◌∙◌, arith, List, [], ◌∷◌, ◌++◌, Result, ok, err}
use embed_beetroot_hw_2_7_pr.Packet.Words.{river2_addr_app}
use embed_beetroot_hw_2_7_pr.Session.{Session}
use embed_beetroot_hw_2_7_pr.Ble.{Ble, conn_handle_none}
use embed_beetroot_hw_2_7_pr.Ble.Calls.{river2_ble_write}
use embed_beetroot_hw_2_7_pr.Auth.{World, Platform, river2_send_command}
use embed_beetroot_hw_2_7_pr.Auth.Protocol.Whole.{IsWhole, send_inner_encrypted-IsWhole}

-- A command over the BLE client in the state `s`: one frame more was written, over a connection
-- whose characteristics are found, and NimBLE took it; or nothing was done.
abbrev pub IsSentOver : ℕ → Ble → World → Result (Unit {0}) × World → Type 0
IsSentOver rc s w (ok done, w') =
    (bytes : List ℕ) × (w' ≡ record w { sent = w.sent ++ bytes ∷ [] })
    × ¬ (s.conn_handle ≡ conn_handle_none)
    × ¬ (s.write_handle ≡ 0)
    × (rc ≡ 0)
IsSentOver rc s w (err e, w') = w' ≡ w

write_taken :
    (rc : ℕ) (s : Ble)
    → river2_ble_write rc s ≡ ok tt
    → ¬ (s.conn_handle ≡ conn_handle_none) × ¬ (s.write_handle ≡ 0) × (rc ≡ 0)
unfolding river2_ble_write
write_taken rc s taken = (λ e. ground arith, λ e. ground arith, ground arith)

IsWhole-IsSentOver :
    (p : Platform) (rc : ℕ) (s : Ble) (w : World) (r : Result (Unit {0}) × World)
    → ((sent : List (List ℕ)) (bytes : List ℕ) → p.ble_write sent bytes ≡ river2_ble_write rc s)
    → IsWhole p w r
    → IsSentOver rc s w r
IsWhole-IsSentOver p rc s w (ok done, w') same (bytes, taken, more) =
    let (wired, found, took) = write_taken rc s (sym (same w.sent bytes) ∙ taken) in
    (bytes, more, wired, found, took)
IsWhole-IsSentOver p rc s w (err e, w') same whole = whole

-- Any command, with any session, whose writes go to a BLE client in any state: it succeeds only
-- where the client is connected, has the handle of the characteristic it writes to, and NimBLE
-- takes the write, and then exactly one frame more is written; otherwise an error is returned and
-- nothing is changed.
pub river2_send_command-IsSentOver :
    (p : Platform) (rc : ℕ) (s : Ble) (c : Session) (dst cmd_set cmd_id : ℕ) (payload : List ℕ)
    (w : World)
    → ((sent : List (List ℕ)) (bytes : List ℕ) → p.ble_write sent bytes ≡ river2_ble_write rc s)
    → IsSentOver rc s w (river2_send_command p c dst cmd_set cmd_id payload w)
unfolding river2_send_command
river2_send_command-IsSentOver p rc s c dst cmd_set cmd_id payload w same =
    IsWhole-IsSentOver p rc s w (river2_send_command p c dst cmd_set cmd_id payload w) same
      (send_inner_encrypted-IsWhole p w c river2_addr_app dst cmd_set cmd_id payload)
