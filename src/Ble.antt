-- ===== src/Ble.antt =====
-- main/src/ble_client.c: the statics of the BLE client, the chain of GATT discovery callbacks, the
-- GAP events and the queue of notifications. Each call of NimBLE returns a code that is an
-- argument here, 0 for success.
pub mod Calls
pub mod Init
pub mod Queue
pub mod Steps
pub mod Gap
pub mod Invariant
pub mod Connected
mod Tests
use embed_beetroot_hw_2_7_pr.Prelude.{
  ℕ, suc, ◌+◌, Bool, true, false, not, ◌&&◌, ◌||◌, Option, none, some, List, [], ◌∷◌, ◌++◌, ltb,
  ◌==◌, if◌then◌else◌, length, get_or, take, Result, ok, err, EspErr, fail, invalid_state,
  not_found, not_supported, timeout,
}

abbrev pub max_services : ℕ
max_services = 24

-- The length that `river2_ble_init` gives to the queue.
abbrev pub queue_length : ℕ
queue_length = 16

-- `BLE_HS_CONN_HANDLE_NONE` of NimBLE.
abbrev pub conn_handle_none : ℕ
conn_handle_none = 0xFFFF

pub data Uuid : Type 0 where
  uuid16 : ℕ → Uuid
  uuid128 : List ℕ → Uuid

abbrev pub rfcomm_write_uuid16 : Uuid
rfcomm_write_uuid16 = uuid16 0x0002

abbrev pub rfcomm_notify_uuid16 : Uuid
rfcomm_notify_uuid16 = uuid16 0x0003

abbrev pub rfcomm_write_uuid128 : Uuid
rfcomm_write_uuid128 = uuid128 (
    0xfb ∷ 0x34 ∷ 0x9b ∷ 0x5f ∷ 0x80 ∷ 0x00 ∷ 0x00 ∷ 0x80 ∷ 0x00 ∷ 0x10 ∷ 0x00 ∷ 0x00 ∷ 0x02 ∷ 0x00
    ∷ 0x00 ∷ 0x00 ∷ [])

abbrev pub rfcomm_notify_uuid128 : Uuid
rfcomm_notify_uuid128 = uuid128 (
    0xfb ∷ 0x34 ∷ 0x9b ∷ 0x5f ∷ 0x80 ∷ 0x00 ∷ 0x00 ∷ 0x80 ∷ 0x00 ∷ 0x10 ∷ 0x00 ∷ 0x00 ∷ 0x03 ∷ 0x00
    ∷ 0x00 ∷ 0x00 ∷ [])

abbrev pub nus_write_uuid : Uuid
nus_write_uuid = uuid128 (
    0x9e ∷ 0xca ∷ 0xdc ∷ 0x24 ∷ 0x0e ∷ 0xe5 ∷ 0xa9 ∷ 0xe0 ∷ 0x93 ∷ 0xf3 ∷ 0xa3 ∷ 0xb5 ∷ 0x02 ∷ 0x00
    ∷ 0x40 ∷ 0x6e ∷ [])

abbrev pub nus_notify_uuid : Uuid
nus_notify_uuid = uuid128 (
    0x9e ∷ 0xca ∷ 0xdc ∷ 0x24 ∷ 0x0e ∷ 0xe5 ∷ 0xa9 ∷ 0xe0 ∷ 0x93 ∷ 0xf3 ∷ 0xa3 ∷ 0xb5 ∷ 0x03 ∷ 0x00
    ∷ 0x40 ∷ 0x6e ∷ [])

-- `BLE_GATT_DSC_CLT_CFG_UUID16` of NimBLE.
abbrev pub cccd_uuid : Uuid
cccd_uuid = uuid16 0x2902

-- The notifications to the owner task.
pub data BleEvent : Type 0 where
  host_sync connected connect_error disconnected : BleEvent

-- The discovery that NimBLE is busy with.
pub data Running : Type 0 where
  idle svc_discovery chr_discovery dsc_discovery : Running

pub record Service : Type 0 where
  pub start : ℕ
  pub end : ℕ

-- The statics, where `services` holds the first `s_service_count` entries of the array; then the
-- notifications to the owner, the latest first, and what NimBLE has been asked for.
pub record Ble : Type 0 where
  pub conn_handle : ℕ
  pub write_handle : ℕ
  pub notify_handle : ℕ
  pub notify_svc_end : ℕ
  pub cccd_found : Bool
  pub services : List Service
  pub service_idx : ℕ
  pub queue : List (List ℕ)
  pub posted : List BleEvent
  pub running : Running
  pub is_subscribing : Bool

-- The state after `river2_ble_init`.
pub ble_start : Ble
ble_start = record {
  conn_handle = conn_handle_none;
  write_handle = 0;
  notify_handle = 0;
  notify_svc_end = 0;
  cccd_found = false;
  services = [];
  service_idx = 0;
  queue = [];
  posted = [];
  running = idle;
  is_subscribing = false;
}

unfoldable pub notify_owner : BleEvent → Ble → Ble
notify_owner event s = record s { posted = event ∷ s.posted }

unfoldable pub finish_connect : Result (Unit {0}) → Ble → Ble
unfolding notify_owner
finish_connect (ok done) s = notify_owner connected s
finish_connect (err e) s = notify_owner connect_error s

-- `ble_gattc_disc_all_dscs` from the value handle to the end of the service.
unfoldable pub begin_descriptor_discovery : ℕ → Ble → Ble
unfolding finish_connect
begin_descriptor_discovery rc s =
    if not (rc == 0) then finish_connect (err fail) s else record s { running = dsc_discovery }

unfoldable pub begin_chr_discovery_for_service : ℕ → Ble → Ble
unfolding finish_connect
begin_chr_discovery_for_service rc s =
    if not (rc == 0) then finish_connect (err fail) s else record s { running = chr_discovery }

-- What a callback is told: an item, the end of the items, or another status.
pub data Status : Type 0 where
  item done failed : Status

unfoldable pub on_cccd_write : Status → Ble → Ble
unfolding finish_connect
on_cccd_write item s = finish_connect (ok tt) s
on_cccd_write done s = finish_connect (err fail) s
on_cccd_write failed s = finish_connect (err fail) s

module _ (uuid_cmp : Uuid → Uuid → Bool) where
  unfoldable pub disc_dsc_cb : ℕ → Status → Uuid → Ble → Ble
  unfolding finish_connect
  disc_dsc_cb rc item uuid s =
      if not s.cccd_found && uuid_cmp uuid cccd_uuid
      then (let s' = record s { cccd_found = true } in
          if not (rc == 0)
          then finish_connect (err fail) s'
          else record s' { is_subscribing = true })
      else s
  disc_dsc_cb rc done uuid s = if not s.cccd_found then finish_connect (err not_found) s else s
  disc_dsc_cb rc failed uuid s = finish_connect (err fail) s

  abbrev pub is_write_uuid : Uuid → Bool
  is_write_uuid uuid =
      uuid_cmp uuid rfcomm_write_uuid128
      || uuid_cmp uuid rfcomm_write_uuid16
      || uuid_cmp uuid nus_write_uuid

  abbrev pub is_notify_uuid : Uuid → Bool
  is_notify_uuid uuid =
      uuid_cmp uuid rfcomm_notify_uuid128
      || uuid_cmp uuid rfcomm_notify_uuid16
      || uuid_cmp uuid nus_notify_uuid

  -- An index past the entries reads what the static array holds there, 0 at first.
  unfoldable pub disc_chr_cb : ℕ → Status → Uuid → ℕ → Ble → Ble
  unfolding finish_connect begin_chr_discovery_for_service begin_descriptor_discovery
  disc_chr_cb rc item uuid val_handle s =
      let s1 =
        if s.write_handle == 0 && is_write_uuid uuid
        then record s { write_handle = val_handle }
        else s in
      if s1.notify_handle == 0 && is_notify_uuid uuid
      then record s1 {
        notify_handle = val_handle;
        notify_svc_end = (get_or s1.services s1.service_idx (record { start = 0; end = 0 })).end;
      }
      else s1
  disc_chr_cb rc done uuid val_handle s =
      let s1 = record s { service_idx = s.service_idx + 1 } in
      if ltb s1.service_idx (length s1.services)
      then begin_chr_discovery_for_service rc s1
      else if s1.write_handle == 0 || s1.notify_handle == 0
      then finish_connect (err not_supported) s1
      else begin_descriptor_discovery rc s1
  disc_chr_cb rc failed uuid val_handle s = finish_connect (err fail) s

unfoldable pub disc_svc_cb : ℕ → Status → Service → Ble → Ble
unfolding finish_connect begin_chr_discovery_for_service
disc_svc_cb rc item service s =
    if ltb (length s.services) max_services
    then record s { services = s.services ++ service ∷ [] }
    else s
disc_svc_cb rc done service s =
    if length s.services == 0
    then finish_connect (err not_found) s
    else begin_chr_discovery_for_service rc (record s { service_idx = 0 })
disc_svc_cb rc failed service s = finish_connect (err fail) s

-- `BLE_GAP_EVENT_CONNECT`, with the status and the handle of the event.
unfoldable pub on_connect : ℕ → ℕ → ℕ → Ble → Ble
unfolding finish_connect
on_connect rc status handle s =
    if status == 0
    then (let s1 = record s {
      conn_handle = handle;
      services = [];
      service_idx = 0;
      write_handle = 0;
      notify_handle = 0;
      cccd_found = false;
    } in
        if not (rc == 0)
        then finish_connect (err fail) s1
        else record s1 { running = svc_discovery })
    else finish_connect (err fail) s

-- `BLE_GAP_EVENT_DISCONNECT`
unfoldable pub on_disconnect : Ble → Ble
unfolding notify_owner
on_disconnect s = notify_owner disconnected (record s { conn_handle = conn_handle_none })

-- `BLE_GAP_EVENT_NOTIFY_RX`: `flat` is what `ble_hs_mbuf_to_flat` copies of the packet, unless it
-- fails; `memory` says whether `malloc` succeeds, and the packet has `len` bytes.
unfoldable pub on_notify_rx : Bool → ℕ → Option (List ℕ) → Ble → Ble
on_notify_rx memory len flat s = if len == 0 then s else if not memory then s else elim flat [
  | none ↦ s
  | some chunk ↦
      if ltb (length s.queue) queue_length then record s { queue = s.queue ++ chunk ∷ [] } else s
]

-- The host was reset: it is only logged.
unfoldable pub on_reset : ℕ → Ble → Ble
on_reset reason s = s

unfoldable pub on_sync : Ble → Ble
unfolding notify_owner
on_sync s = notify_owner host_sync s
