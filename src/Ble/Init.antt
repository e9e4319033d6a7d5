-- ===== src/Ble/Init.antt =====
-- main/src/ble_client.c, what runs once: `river2_ble_init`, and the task of NimBLE's host. The calls
-- of the SDK are a list, the latest last.
use embed_beetroot_hw_2_7_pr.Prelude.{
  ℕ, suc, Bool, true, false, EspErr, ◌≡◌, ◌↔◌, ◌⊎◌, inl, inr, refl, Option, none, some, List, [],
  ◌∷◌, ◌++◌, not, if◌then◌else◌, Result, ok, err, no_mem,
}
use embed_beetroot_hw_2_7_pr.Ble.{queue_length}

-- The functions of the file that are handed to the SDK.
pub data Callback : Type 0 where
  on_reset_cb on_sync_cb : Callback

pub data Call : Type 0 where
  queue_create : ℕ → Call
  port_init set_store_status_cb : Call
  set_reset_cb set_sync_cb : Callback → Call
  device_name_set freertos_init : Call
  port_run freertos_deinit : Call

-- The task that the notifications go to, the room in the queue, and the calls so far.
pub record Client : Type 0 where
  pub owner_task : Option ℕ
  pub notify_queue : Option ℕ
  pub calls : List Call

abbrev pub called : Call → Client → Client
called call c = record c { calls = c.calls ++ call ∷ [] }

-- When the program starts.
abbrev pub client_start : Client
client_start = record { owner_task = none; notify_queue = none; calls = [] }

unfoldable pub host_task : Client → Client
host_task c = called freertos_deinit (called port_run c)

-- `current` is the calling task, `created` says whether the queue was, and `port` is the code of
-- `nimble_port_init`.
unfoldable pub river2_ble_init : ℕ → Bool → Result (Unit {0}) → Client → Result (Unit {0}) × Client
river2_ble_init current created port c =
    let c1 = called (queue_create queue_length) (record c { owner_task = some current }) in
    if not created
    then (err no_mem, record c1 { notify_queue = none })
    else let c2 = called port_init (record c1 { notify_queue = some queue_length }) in
      elim port [
        | err e ↦ (err e, c2)
        | ok done ↦ (
          ok tt,
          called freertos_init (
              called device_name_set (
                called set_store_status_cb
                  (called (set_sync_cb on_sync_cb) (called (set_reset_cb on_reset_cb) c2)))),
        )
      ]

-- How often a call was made.
abbrev pub is_freertos_init : Call → Bool
is_freertos_init freertos_init = true
is_freertos_init _ = false

abbrev pub starts : List Call → ℕ
starts [] = 0
starts (call ∷ calls) = if is_freertos_init call then suc (starts calls) else starts calls

-- The calls that must stand before NimBLE's task starts.
abbrev pub Before : List Call → Call → Type 0
Before calls call =
    (prior : List Call) × ((later : List Call) × (calls
        ≡ prior ++ call ∷ (later ++ freertos_init ∷ [])))

-- A client that is ready for NimBLE's callbacks.
pub record IsReady (current : ℕ) (c : Client) : Type 0 where
  pub owner : c.owner_task ≡ some current
  pub queue : c.notify_queue ≡ some queue_length
  pub port_first : Before c.calls port_init
  pub reset_first : Before c.calls (set_reset_cb on_reset_cb)
  pub sync_first : Before c.calls (set_sync_cb on_sync_cb)

-- After the initialisation: a success has started NimBLE's task, once and as the last call, with
-- the owner known, the queue of sixteen places created, the port initialised and both callbacks
-- set before it; an error has not started it, and its code says that there is no memory exactly
-- when the queue was not created or the port says so.
pub river2_ble_init-IsReady :
    (current : ℕ) (created : Bool) (port : Result (Unit {0}))
    → (let (r, c) = river2_ble_init current created port client_start in
        (r ≡ ok tt → IsReady current c × (starts c.calls ≡ 1))
        × ((e : EspErr)
            → r ≡ err e
            → (starts c.calls ≡ 0) × (e ≡ no_mem ↔ ((created ≡ false) ⊎ (port ≡ err no_mem)))))
unfolding river2_ble_init
river2_ble_init-IsReady current false port =
    ((λ h. cc), (λ e h. (refl, ((λ same. inl refl), (λ why. cc)))))
river2_ble_init-IsReady current true (err code) = (
  (λ h. cc),
  (λ e h. (refl, ((λ same. inr cc), (λ why. elim why [ inl not_created ↦ cc | inr failed ↦ cc ])))),
)
river2_ble_init-IsReady current true (ok done) = (
  (λ h. (
    record {
      owner = refl;
      queue = refl;
      port_first = (
        queue_create 16 ∷ [],
        (
          set_reset_cb on_reset_cb
              ∷ set_sync_cb on_sync_cb
              ∷ set_store_status_cb
              ∷ device_name_set
              ∷ [],
          refl,
        ),
      );
      reset_first = (
        queue_create 16 ∷ port_init ∷ [],
        (set_sync_cb on_sync_cb ∷ set_store_status_cb ∷ device_name_set ∷ [], refl),
      );
      sync_first = (
        queue_create 16 ∷ port_init ∷ set_reset_cb on_reset_cb ∷ [],
        (set_store_status_cb ∷ device_name_set ∷ [], refl),
      );
    },
    refl,
  )),
  (λ e h. cc),
)
