-- ===== src/Ble/Gap.antt =====
-- `gap_event_cb` of main/src/ble_client.c: NimBLE's GAP events, each to its handler.
use embed_beetroot_hw_2_7_pr.Prelude.{ℕ, Bool, false, Option, List, ◌≡◌}
use embed_beetroot_hw_2_7_pr.Ble.{Ble, Uuid, idle, on_connect, on_disconnect, on_notify_rx}
use embed_beetroot_hw_2_7_pr.Ble.Steps.{connects, disconnects, notified, Reachable, next}

-- `rc` is what the start of the service discovery returns, `flat` what is copied of the packet.
data GapEvent : Type 0 where
  connect : (rc status handle : ℕ) → GapEvent
  disconnect : GapEvent
  notify_rx : (memory : Bool) (len : ℕ) (flat : Option (List ℕ)) → GapEvent
  other_event : GapEvent

unfoldable gap_event_cb : GapEvent → Ble → Ble
unfolding on_connect on_disconnect on_notify_rx
gap_event_cb (connect rc status handle) s = on_connect rc status handle s
gap_event_cb disconnect s = on_disconnect s
gap_event_cb (notify_rx memory len flat) s = on_notify_rx memory len flat s
gap_event_cb other_event s = s

-- A connection event comes when no discovery of an older connection goes on.
abbrev MayCome : GapEvent → Ble → Type 0
MayCome (connect rc status handle) s = (s.running ≡ idle) × (s.is_subscribing ≡ false)
MayCome disconnect s = Unit
MayCome (notify_rx memory len flat) s = Unit
MayCome other_event s = Unit

-- Every GAP event is a step of the state machine.
gap_event_cb-Reachable :
    (uuid_cmp : Uuid → Uuid → Bool) (event : GapEvent) (s : Ble)
    → MayCome event s
    → Reachable uuid_cmp s
    → Reachable uuid_cmp (gap_event_cb event s)
unfolding gap_event_cb
gap_event_cb-Reachable uuid_cmp (connect rc status handle) s may reached =
    next reached (connects s rc status handle may.0 may.1)
gap_event_cb-Reachable uuid_cmp disconnect s may reached = next reached (disconnects s)
gap_event_cb-Reachable uuid_cmp (notify_rx memory len flat) s may reached =
    next reached (notified s memory len flat)
gap_event_cb-Reachable uuid_cmp other_event s may reached = reached
