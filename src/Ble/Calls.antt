-- ===== src/Ble/Calls.antt =====
-- The functions of main/src/ble_client.c that the rest of the program calls while a connection is
-- made and used.
use embed_beetroot_hw_2_7_pr.Prelude.{
  ℕ, not, ◌||◌, Option, none, some, List, [], ◌∷◌, ltb, ◌==◌, if◌then◌else◌, length, get_or, take,
  Result, ok, err, fail, invalid_state, timeout,
}
use embed_beetroot_hw_2_7_pr.Ble.{Ble, conn_handle_none}

-- NimBLE's order of an address is the reverse of the display order.
abbrev pub peer_addr : List ℕ → List ℕ
peer_addr target =
    get_or target 5 0
    ∷ get_or target 4 0
    ∷ get_or target 3 0
    ∷ get_or target 2 0
    ∷ get_or target 1 0
    ∷ get_or target 0 0
    ∷ []

-- The codes of `ble_hs_id_infer_auto` and `ble_gap_connect`; the result has the address that the
-- connection is made to.
unfoldable pub river2_ble_start_connect : ℕ → ℕ → List ℕ → Ble → Result (List ℕ) × Ble
river2_ble_start_connect rc_infer rc_connect target s =
    let s1 = record s { queue = [] } in
    if not (rc_infer == 0)
    then (err fail, s1)
    else if not (rc_connect == 0)
    then (err fail, s1)
    else (ok (peer_addr target), s1)

-- `rc` is what `ble_gattc_write_flat` returns, if it is called.
unfoldable pub river2_ble_write : ℕ → Ble → Result (Unit {0})
river2_ble_write rc s =
    if s.conn_handle == conn_handle_none || s.write_handle == 0
    then err invalid_state
    else if not (rc == 0)
    then err fail
    else ok tt

-- What `xQueueReceive` takes off the front of the queue; `none` where the wait ran out.
unfoldable pub queue_receive : Ble → Option (List ℕ) × Ble
queue_receive s = elim s.queue [
  | [] ↦ (none, s)
  | chunk ∷ rest ↦ (some chunk, record s { queue = rest })
]

-- A chunk longer than the caller's buffer loses its end.
unfoldable pub wait_notification : Option (List ℕ) → ℕ → Result (List ℕ)
wait_notification none out_cap = err timeout
wait_notification (some chunk) out_cap =
    let copy_len = if ltb (length chunk) out_cap then length chunk else out_cap in
    ok (take copy_len chunk)

unfoldable pub river2_ble_wait_notification : ℕ → Ble → Result (List ℕ) × Ble
unfolding queue_receive wait_notification
river2_ble_wait_notification out_cap s =
    let (received, s') = queue_receive s in (wait_notification received out_cap, s')
