-- ===== src/Ble/Invariant.antt =====
-- What holds in every state that the BLE client can reach.
use embed_beetroot_hw_2_7_pr.Prelude.{
  ℕ, ◌≤◌, ◌<◌, ◌≡◌, ◌≢◌, ◌⊎◌, arith, refl, ap, Bool, true, false, Bool-cases, inl, inr, Option,
  none, some, List, [], ◌∷◌, length, length-append,
}
use embed_beetroot_hw_2_7_pr.Ble.{
  Ble, Uuid, Service, Status, item, done, failed, idle, chr_discovery, dsc_discovery, max_services,
  queue_length, ble_start, notify_owner, finish_connect, begin_descriptor_discovery,
  begin_chr_discovery_for_service, on_cccd_write, disc_dsc_cb, disc_chr_cb, disc_svc_cb, on_connect,
  on_disconnect, on_notify_rx, on_reset, on_sync, is_write_uuid, is_notify_uuid,
}
use embed_beetroot_hw_2_7_pr.Ble.Calls.{
  river2_ble_start_connect, queue_receive, river2_ble_wait_notification,
}
use embed_beetroot_hw_2_7_pr.Ble.Steps.{
  Step, resets, syncs, starts_connect, connects, disconnects, notified, waits, finds_service,
  ends_services, fails_services, finds_characteristic, ends_characteristics, fails_characteristics,
  finds_descriptor, ends_descriptors, fails_descriptors, subscribes, Reachable, here, next, ended,
}

-- Both characteristics have been found.
abbrev pub IsResolved : Ble → Type 0
IsResolved s = (s.write_handle ≢ 0) × (s.notify_handle ≢ 0)

pub record IsValid (s : Ble) : Type 0 where
  pub services_fit : length s.services ≤ max_services
  pub queue_fits : length s.queue ≤ queue_length
  pub index_in_range : s.running ≡ chr_discovery → s.service_idx < length s.services
  pub resolved_first : s.running ≡ dsc_discovery → IsResolved s
  pub found_first : s.is_subscribing ≡ true → IsResolved s × (s.cccd_found ≡ true)

ble_start-IsValid : IsValid ble_start
unfolding ble_start
ble_start-IsValid = record {
  services_fit = omega arith;
  queue_fits = omega arith;
  index_in_range = λ e. cc;
  resolved_first = λ e. cc;
  found_first = λ e. cc;
}

notify_rx-IsValid :
    (s : Ble) (memory : Bool) (len : ℕ) (flat : Option (List ℕ))
    → IsValid s
    → IsValid (on_notify_rx memory len flat s)
unfolding on_notify_rx
notify_rx-IsValid s memory len none v = ground arith
notify_rx-IsValid s memory len (some chunk) v = ground (arith, length-append s.queue (chunk ∷ []))

svc-IsValid :
    (s : Ble) (rc : ℕ) (status : Status) (service : Service)
    → IsValid s
    → s.running ≢ chr_discovery
    → IsValid (disc_svc_cb rc status service s)
unfolding disc_svc_cb finish_connect notify_owner begin_chr_discovery_for_service
svc-IsValid s rc item service v h = ground (arith, length-append s.services (service ∷ []))
svc-IsValid s rc done service v h = ground arith
svc-IsValid s rc failed service v h = ground arith

ended-IsValid : (s : Ble) → IsValid s → IsValid (ended s)
ended-IsValid s v = ground arith

module _ (uuid_cmp : Uuid → Uuid → Bool) where
  chr_item-IsValid :
      (s : Ble) (rc : ℕ) (uuid : Uuid) (val_handle : ℕ)
      → IsValid s
      → s.running ≡ chr_discovery
      → IsValid (disc_chr_cb uuid_cmp rc item uuid val_handle s)
  unfolding disc_chr_cb
  chr_item-IsValid s rc uuid val_handle v h = elim (Bool-cases (is_write_uuid uuid_cmp uuid)) [
    | inl w ↦ elim (Bool-cases (is_notify_uuid uuid_cmp uuid)) [
      | inl n ↦ rw (w, n) (ground arith)
      | inr n ↦ rw (w, n) (ground arith)
    ]
    | inr w ↦ elim (Bool-cases (is_notify_uuid uuid_cmp uuid)) [
      | inl n ↦ rw (w, n) (ground arith)
      | inr n ↦ rw (w, n) (ground arith)
    ]
  ]

  chr_end-IsValid :
      (s : Ble) (rc : ℕ) (uuid : Uuid) (val_handle : ℕ)
      → IsValid s
      → s.running ≡ idle
      → IsValid (disc_chr_cb uuid_cmp rc done uuid val_handle s)
  unfolding disc_chr_cb finish_connect notify_owner begin_chr_discovery_for_service
      begin_descriptor_discovery
  chr_end-IsValid s rc uuid val_handle v h = ground arith

  dsc-IsValid :
      (s : Ble) (rc : ℕ) (status : Status) (uuid : Uuid)
      → IsValid s
      → (status ≡ item → IsResolved s)
      → IsValid (disc_dsc_cb uuid_cmp rc status uuid s)
  unfolding disc_dsc_cb finish_connect notify_owner
  dsc-IsValid s rc item uuid v h = let resolved = h refl in ground arith
  dsc-IsValid s rc done uuid v h = ground arith
  dsc-IsValid s rc failed uuid v h = ground arith

connect-IsValid :
    (s : Ble) (rc status handle : ℕ)
    → IsValid s
    → s.running ≡ idle
    → s.is_subscribing ≡ false
    → IsValid (on_connect rc status handle s)
unfolding on_connect finish_connect notify_owner
connect-IsValid s rc status handle v h h' = ground arith

pub queue_cases {ℓ} :
    {A : Type ℓ} (q : List A) → (q ≡ []) ⊎ ((x : A) × ((rest : List A) × (q ≡ x ∷ rest)))
queue_cases [] = inl refl
queue_cases (x ∷ rest) = inr (x, (rest, refl))

receive-IsValid :
    (s : Ble) (out_cap : ℕ) → IsValid s → IsValid (river2_ble_wait_notification out_cap s).1
unfolding river2_ble_wait_notification queue_receive
receive-IsValid s out_cap v = elim (queue_cases s.queue) [
  | inl e ↦ rw e (ground arith)
  | inr (chunk, (rest, e)) ↦ rw e (ground (arith, ap length e))
]

module _ (uuid_cmp : Uuid → Uuid → Bool) where
  Step-IsValid : {s t : Ble} → Step uuid_cmp s t → IsValid s → IsValid t
  unfolding on_reset on_sync notify_owner on_disconnect river2_ble_start_connect on_cccd_write
      finish_connect disc_chr_cb
  Step-IsValid (resets s reason) v = v
  Step-IsValid (syncs s) v = ground arith
  Step-IsValid (starts_connect s rc_infer rc_connect target) v = ground arith
  Step-IsValid (connects s rc status handle h h') v = connect-IsValid s rc status handle v h h'
  Step-IsValid (disconnects s) v = ground arith
  Step-IsValid (notified s memory len flat) v = notify_rx-IsValid s memory len flat v
  Step-IsValid (waits s out_cap) v = receive-IsValid s out_cap v
  Step-IsValid (finds_service s rc service h) v = svc-IsValid s rc item service v (λ e. cc)
  Step-IsValid (ends_services s rc service h) v =
      svc-IsValid (ended s) rc done service (ended-IsValid s v) (λ e. cc)
  Step-IsValid (fails_services s rc service h) v =
      svc-IsValid (ended s) rc failed service (ended-IsValid s v) (λ e. cc)
  Step-IsValid (finds_characteristic s rc uuid val_handle h) v =
      chr_item-IsValid uuid_cmp s rc uuid val_handle v h
  Step-IsValid (ends_characteristics s rc uuid val_handle h) v =
      chr_end-IsValid uuid_cmp (ended s) rc uuid val_handle (ended-IsValid s v) refl
  Step-IsValid (fails_characteristics s rc uuid val_handle h) v = ground arith
  Step-IsValid (finds_descriptor s rc uuid h) v =
      dsc-IsValid uuid_cmp s rc item uuid v (λ e. v.resolved_first h)
  Step-IsValid (ends_descriptors s rc uuid h) v =
      dsc-IsValid uuid_cmp (ended s) rc done uuid (ended-IsValid s v) (λ e. cc)
  Step-IsValid (fails_descriptors s rc uuid h) v =
      dsc-IsValid uuid_cmp (ended s) rc failed uuid (ended-IsValid s v) (λ e. cc)
  Step-IsValid (subscribes s item h) v = ground arith
  Step-IsValid (subscribes s done h) v = ground arith
  Step-IsValid (subscribes s failed h) v = ground arith

  -- In every reachable state the table of services holds 24 entries at most and the queue 16
  -- chunks; while characteristics are discovered the current service is one of the table; and the
  -- descriptors are asked for, and the subscription is written, only once both characteristics
  -- have been found.
  pub Reachable-IsValid : {s : Ble} → Reachable uuid_cmp s → IsValid s
  Reachable-IsValid here = ble_start-IsValid
  Reachable-IsValid (next r step) = Step-IsValid step (Reachable-IsValid r)
