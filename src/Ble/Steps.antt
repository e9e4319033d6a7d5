-- ===== src/Ble/Steps.antt =====
-- The BLE client as a state machine: what the tasks and NimBLE may do next. NimBLE calls back only
-- for a discovery that it was asked for, and an end or a failure ends the discovery.
use embed_beetroot_hw_2_7_pr.Prelude.{ℕ, ◌≡◌, Bool, true, false, Option, List}
use embed_beetroot_hw_2_7_pr.Ble.{
  Ble, Uuid, Service, Status, item, done, failed, idle, svc_discovery, chr_discovery, dsc_discovery,
  ble_start, on_cccd_write, disc_dsc_cb, disc_chr_cb, disc_svc_cb, on_connect, on_disconnect,
  on_notify_rx, on_reset, on_sync,
}
use embed_beetroot_hw_2_7_pr.Ble.Calls.{river2_ble_start_connect, river2_ble_wait_notification}

abbrev pub ended : Ble → Ble
ended s = record s { running = idle }

-- A connection event comes when no discovery of an older connection goes on.
pub data Step (uuid_cmp : Uuid → Uuid → Bool) : Ble → Ble → Type 0 where
  resets : (s : Ble) (reason : ℕ) → Step uuid_cmp s (on_reset reason s)
  syncs : (s : Ble) → Step uuid_cmp s (on_sync s)
  starts_connect :
      (s : Ble) (rc_infer rc_connect : ℕ) (target : List ℕ)
      → Step uuid_cmp s (river2_ble_start_connect rc_infer rc_connect target s).1
  connects :
      (s : Ble) (rc status handle : ℕ)
      → s.running ≡ idle
      → s.is_subscribing ≡ false
      → Step uuid_cmp s (on_connect rc status handle s)
  disconnects : (s : Ble) → Step uuid_cmp s (on_disconnect s)
  notified :
      (s : Ble) (memory : Bool) (len : ℕ) (flat : Option (List ℕ))
      → Step uuid_cmp s (on_notify_rx memory len flat s)
  waits : (s : Ble) (out_cap : ℕ) → Step uuid_cmp s (river2_ble_wait_notification out_cap s).1
  finds_service :
      (s : Ble) (rc : ℕ) (service : Service)
      → s.running ≡ svc_discovery
      → Step uuid_cmp s (disc_svc_cb rc item service s)
  ends_services :
      (s : Ble) (rc : ℕ) (service : Service)
      → s.running ≡ svc_discovery
      → Step uuid_cmp s (disc_svc_cb rc done service (ended s))
  fails_services :
      (s : Ble) (rc : ℕ) (service : Service)
      → s.running ≡ svc_discovery
      → Step uuid_cmp s (disc_svc_cb rc failed service (ended s))
  finds_characteristic :
      (s : Ble) (rc : ℕ) (uuid : Uuid) (val_handle : ℕ)
      → s.running ≡ chr_discovery
      → Step uuid_cmp s (disc_chr_cb uuid_cmp rc item uuid val_handle s)
  ends_characteristics :
      (s : Ble) (rc : ℕ) (uuid : Uuid) (val_handle : ℕ)
      → s.running ≡ chr_discovery
      → Step uuid_cmp s (disc_chr_cb uuid_cmp rc done uuid val_handle (ended s))
  fails_characteristics :
      (s : Ble) (rc : ℕ) (uuid : Uuid) (val_handle : ℕ)
      → s.running ≡ chr_discovery
      → Step uuid_cmp s (disc_chr_cb uuid_cmp rc failed uuid val_handle (ended s))
  finds_descriptor :
      (s : Ble) (rc : ℕ) (uuid : Uuid)
      → s.running ≡ dsc_discovery
      → Step uuid_cmp s (disc_dsc_cb uuid_cmp rc item uuid s)
  ends_descriptors :
      (s : Ble) (rc : ℕ) (uuid : Uuid)
      → s.running ≡ dsc_discovery
      → Step uuid_cmp s (disc_dsc_cb uuid_cmp rc done uuid (ended s))
  fails_descriptors :
      (s : Ble) (rc : ℕ) (uuid : Uuid)
      → s.running ≡ dsc_discovery
      → Step uuid_cmp s (disc_dsc_cb uuid_cmp rc failed uuid (ended s))
  subscribes :
      (s : Ble) (status : Status)
      → s.is_subscribing ≡ true
      → Step uuid_cmp s (on_cccd_write status (record s { is_subscribing = false }))

pub data Reachable (uuid_cmp : Uuid → Uuid → Bool) : Ble → Type 0 where
  here : Reachable uuid_cmp ble_start
  next : {s t : Ble} → Reachable uuid_cmp s → Step uuid_cmp s t → Reachable uuid_cmp t
