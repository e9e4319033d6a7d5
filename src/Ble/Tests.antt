-- ===== src/Ble/Tests.antt =====
-- The state machine of the BLE client, along a connection that succeeds.
use embed_beetroot_hw_2_7_pr.Prelude.{
  ◌↔◌, ◌⊎◌, List, some, [], Result, ok, err, EspErr, no_mem, ◌≡◌, refl, Bool, true, false, ◌∷◌,
  ◌==◌,
}
use embed_beetroot_hw_2_7_pr.Ble.{
  Ble, Uuid, uuid16, uuid128, Service, item, done, rfcomm_write_uuid16, rfcomm_notify_uuid16,
  cccd_uuid, connected, ble_start, on_connect, disc_svc_cb, disc_chr_cb, disc_dsc_cb, on_cccd_write,
  finish_connect, notify_owner, begin_chr_discovery_for_service, begin_descriptor_discovery,
}
use embed_beetroot_hw_2_7_pr.Ble.Steps.{
  connects, finds_service, ends_services, finds_characteristic, ends_characteristics,
  finds_descriptor, subscribes, Reachable, here, next, ended,
}
use embed_beetroot_hw_2_7_pr.Ble.Invariant.{IsResolved, IsValid, Reachable-IsValid}
use embed_beetroot_hw_2_7_pr.Ble.Init.{
  client_start, river2_ble_init, IsReady, starts, river2_ble_init-IsReady,
}
use embed_beetroot_hw_2_7_pr.Ble.Queue.{
  QueueEvent, arrives, takes, run, offered, IsFifo, run-IsFifo,
}
use embed_beetroot_hw_2_7_pr.Ble.Connected.{connected-IsResolved}

same_uuid16 : Uuid → Uuid → Bool
same_uuid16 (uuid16 a) (uuid16 b) = a == b
same_uuid16 (uuid128 a) b = false
same_uuid16 (uuid16 a) (uuid128 b) = false

abbrev a_service : Service
a_service = record { start = 1; end = 20 }

abbrev s1 : Ble
s1 = on_connect 0 0 5 ble_start

abbrev s2 : Ble
s2 = disc_svc_cb 0 item a_service s1

abbrev s3 : Ble
s3 = disc_svc_cb 0 done a_service (ended s2)

abbrev s4 : Ble
s4 = disc_chr_cb same_uuid16 0 item rfcomm_write_uuid16 8 s3

abbrev s5 : Ble
s5 = disc_chr_cb same_uuid16 0 item rfcomm_notify_uuid16 10 s4

abbrev s6 : Ble
s6 = disc_chr_cb same_uuid16 0 done rfcomm_notify_uuid16 0 (ended s5)

abbrev s7 : Ble
s7 = disc_dsc_cb same_uuid16 0 item cccd_uuid s6

abbrev s8 : Ble
s8 = on_cccd_write item (record s7 { is_subscribing = false })

s7-Reachable : Reachable same_uuid16 s7
unfolding same_uuid16 ble_start on_connect disc_svc_cb disc_chr_cb disc_dsc_cb
    begin_chr_discovery_for_service begin_descriptor_discovery
s7-Reachable =
    next
      (next
        (next
          (next
            (next
              (next (next here (connects ble_start 0 0 5 refl refl))
                (finds_service s1 0 a_service refl))
              (ends_services s2 0 a_service refl))
            (finds_characteristic s3 0 rfcomm_write_uuid16 8 refl))
          (finds_characteristic s4 0 rfcomm_notify_uuid16 10 refl))
        (ends_characteristics s5 0 rfcomm_notify_uuid16 0 refl))
      (finds_descriptor s6 0 cccd_uuid refl)

Reachable-IsValid_example : IsValid s7
Reachable-IsValid_example = Reachable-IsValid same_uuid16 s7-Reachable

s7_subscribing : s7.is_subscribing ≡ true
unfolding same_uuid16 ble_start on_connect disc_svc_cb disc_chr_cb disc_dsc_cb
    begin_chr_discovery_for_service begin_descriptor_discovery
s7_subscribing = refl

s8_posts : s8.posted ≡ connected ∷ s7.posted
unfolding on_cccd_write finish_connect notify_owner
s8_posts = refl

connected-IsResolved_example : IsResolved s8 × (s8.cccd_found ≡ true)
connected-IsResolved_example =
    connected-IsResolved same_uuid16 s7-Reachable (subscribes s7 item s7_subscribing) s8_posts

abbrev port_ok : Result (Unit {0})
port_ok = ok tt

river2_ble_init-IsReady_example :
    (let (r, c) = river2_ble_init 3 true port_ok client_start in
      (r ≡ ok tt → IsReady 3 c × (starts c.calls ≡ 1))
      × ((e : EspErr)
          → r ≡ err e
          → (starts c.calls ≡ 0) × (e ≡ no_mem ↔ ((true ≡ false) ⊎ (port_ok ≡ err no_mem)))))
river2_ble_init-IsReady_example = river2_ble_init-IsReady 3 true port_ok

-- Two notifications, of which the second is longer than the buffer of three bytes.
abbrev queue_events : List QueueEvent
queue_events =
    takes
    ∷ arrives true 2 (some (1 ∷ 2 ∷ []))
    ∷ arrives true 4 (some (5 ∷ 6 ∷ 7 ∷ 8 ∷ []))
    ∷ takes
    ∷ takes
    ∷ []

run-IsFifo_example :
    (let (rs, s') = run 3 queue_events ble_start in
      IsFifo 3 ble_start.queue s'.queue (offered queue_events) rs)
run-IsFifo_example = run-IsFifo 3 queue_events ble_start
