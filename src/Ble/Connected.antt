-- ===== src/Ble/Connected.antt =====
-- When the owner task is told that the connection is ready.
use embed_beetroot_hw_2_7_pr.Prelude.{
  ℕ, ◌≡◌, ◌≢◌, ◌⊎◌, arith, refl, ap, sym, ◌∙◌, Bool, true, Bool-cases, inl, inr, Option, none, some,
  List, ◌∷◌, length,
}
use embed_beetroot_hw_2_7_pr.Ble.{
  Ble, Uuid, Service, Status, item, done, failed, BleEvent, host_sync, connected, connect_error,
  disconnected, notify_owner, finish_connect, begin_descriptor_discovery,
  begin_chr_discovery_for_service, on_cccd_write, disc_dsc_cb, disc_chr_cb, disc_svc_cb, on_connect,
  on_disconnect, on_notify_rx, on_reset, on_sync, is_write_uuid, is_notify_uuid,
}
use embed_beetroot_hw_2_7_pr.Ble.Calls.{
  river2_ble_start_connect, queue_receive, river2_ble_wait_notification,
}
use embed_beetroot_hw_2_7_pr.Ble.Steps.{
  Step, resets, syncs, starts_connect, connects, disconnects, notified, waits, finds_service,
  ends_services, fails_services, finds_characteristic, ends_characteristics, fails_characteristics,
  finds_descriptor, ends_descriptors, fails_descriptors, subscribes, Reachable, ended,
}
use embed_beetroot_hw_2_7_pr.Ble.Invariant.{IsResolved, IsValid, Reachable-IsValid, queue_cases}

-- The events that a handler adds, none of them `connected`.
abbrev Quiet : Ble → Ble → Type 0
Quiet s t = (t.posted ≡ s.posted) ⊎ ((e : BleEvent) × (e ≢ connected) × (t.posted ≡ e ∷ s.posted))

not-longer : {A : Type 0} (x : A) (xs : List A) → xs ≢ x ∷ xs
not-longer x xs h = omega (arith, ap length h)

loud : (s t : Ble) → Quiet s t → t.posted ≢ connected ∷ s.posted
loud s t (inl e) h = not-longer connected s.posted (sym e ∙ h)
loud s t (inr (e, differ, e')) h = let same = sym e' ∙ h in absurd (differ cc)

svc-Quiet :
    (s : Ble) (rc : ℕ) (status : Status) (service : Service)
    → Quiet s (disc_svc_cb rc status service s)
unfolding disc_svc_cb finish_connect notify_owner begin_chr_discovery_for_service
svc-Quiet s rc item service = ground arith
svc-Quiet s rc done service = ground arith
svc-Quiet s rc failed service = ground arith

rx-Quiet :
    (s : Ble) (memory : Bool) (len : ℕ) (flat : Option (List ℕ))
    → Quiet s (on_notify_rx memory len flat s)
unfolding on_notify_rx
rx-Quiet s memory len none = ground arith
rx-Quiet s memory len (some chunk) = ground arith

receive-Quiet : (s : Ble) (out_cap : ℕ) → Quiet s (river2_ble_wait_notification out_cap s).1
unfolding river2_ble_wait_notification queue_receive
receive-Quiet s out_cap = elim (queue_cases s.queue) [
  | inl e ↦ rw e (ground arith)
  | inr (chunk, (rest, e)) ↦ rw e (ground arith)
]

start-Quiet :
    (s : Ble) (rc_infer rc_connect : ℕ) (target : List ℕ)
    → Quiet s (river2_ble_start_connect rc_infer rc_connect target s).1
unfolding river2_ble_start_connect
start-Quiet s rc_infer rc_connect target = ground arith

connect-Quiet : (s : Ble) (rc status handle : ℕ) → Quiet s (on_connect rc status handle s)
unfolding on_connect finish_connect notify_owner
connect-Quiet s rc status handle = ground arith

module _ (uuid_cmp : Uuid → Uuid → Bool) where
  chr-Quiet :
      (s : Ble) (rc : ℕ) (status : Status) (uuid : Uuid) (val_handle : ℕ)
      → Quiet s (disc_chr_cb uuid_cmp rc status uuid val_handle s)
  unfolding disc_chr_cb finish_connect notify_owner begin_chr_discovery_for_service
      begin_descriptor_discovery
  chr-Quiet s rc item uuid val_handle = elim (Bool-cases (is_write_uuid uuid_cmp uuid)) [
    | inl w ↦ elim (Bool-cases (is_notify_uuid uuid_cmp uuid)) [
      | inl n ↦ rw (w, n) (ground arith)
      | inr n ↦ rw (w, n) (ground arith)
    ]
    | inr w ↦ elim (Bool-cases (is_notify_uuid uuid_cmp uuid)) [
      | inl n ↦ rw (w, n) (ground arith)
      | inr n ↦ rw (w, n) (ground arith)
    ]
  ]
  chr-Quiet s rc done uuid val_handle = ground arith
  chr-Quiet s rc failed uuid val_handle = ground arith

  dsc-Quiet :
      (s : Ble) (rc : ℕ) (status : Status) (uuid : Uuid)
      → Quiet s (disc_dsc_cb uuid_cmp rc status uuid s)
  unfolding disc_dsc_cb finish_connect notify_owner
  dsc-Quiet s rc item uuid = ground arith
  dsc-Quiet s rc done uuid = ground arith
  dsc-Quiet s rc failed uuid = ground arith

  Step-posts :
      {s t : Ble}
      → Step uuid_cmp s t
      → IsValid s
      → Quiet s t ⊎ (IsResolved t × (t.cccd_found ≡ true))
  unfolding on_reset on_sync notify_owner on_disconnect on_cccd_write finish_connect
  Step-posts (resets s reason) v = inl (inl refl)
  Step-posts (syncs s) v = inl (inr (host_sync, (λ e. cc), refl))
  Step-posts (starts_connect s rc_infer rc_connect target) v =
      inl (start-Quiet s rc_infer rc_connect target)
  Step-posts (connects s rc status handle h h') v = inl (connect-Quiet s rc status handle)
  Step-posts (disconnects s) v = inl (inr (disconnected, (λ e. cc), refl))
  Step-posts (notified s memory len flat) v = inl (rx-Quiet s memory len flat)
  Step-posts (waits s out_cap) v = inl (receive-Quiet s out_cap)
  Step-posts (finds_service s rc service h) v = inl (svc-Quiet s rc item service)
  Step-posts (ends_services s rc service h) v = inl (svc-Quiet (ended s) rc done service)
  Step-posts (fails_services s rc service h) v = inl (svc-Quiet (ended s) rc failed service)
  Step-posts (finds_characteristic s rc uuid val_handle h) v =
      inl (chr-Quiet s rc item uuid val_handle)
  Step-posts (ends_characteristics s rc uuid val_handle h) v =
      inl (chr-Quiet (ended s) rc done uuid val_handle)
  Step-posts (fails_characteristics s rc uuid val_handle h) v =
      inl (chr-Quiet (ended s) rc failed uuid val_handle)
  Step-posts (finds_descriptor s rc uuid h) v = inl (dsc-Quiet s rc item uuid)
  Step-posts (ends_descriptors s rc uuid h) v = inl (dsc-Quiet (ended s) rc done uuid)
  Step-posts (fails_descriptors s rc uuid h) v = inl (dsc-Quiet (ended s) rc failed uuid)
  Step-posts (subscribes s item h) v = inr (v.found_first h)
  Step-posts (subscribes s done h) v = inl (inr (connect_error, (λ e. cc), refl))
  Step-posts (subscribes s failed h) v = inl (inr (connect_error, (λ e. cc), refl))

  -- A step from a reachable state tells the owner that the connection is ready only when the write
  -- and the notify characteristic have both been found, and the descriptor of the subscription.
  pub connected-IsResolved :
      {s t : Ble}
      → Reachable uuid_cmp s
      → Step uuid_cmp s t
      → t.posted ≡ connected ∷ s.posted
      → IsResolved t × (t.cccd_found ≡ true)
  connected-IsResolved {s} {t} r step posts =
      elim (Step-posts step (Reachable-IsValid uuid_cmp r)) [
        | inl quiet ↦ absurd (loud s t quiet posts)
        | inr ready ↦ ready
      ]
