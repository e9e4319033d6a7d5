-- ===== src/Pushbutton.antt =====
-- main/src/pushbutton.c: a button with a one-shot timer that each edge restarts. The timer is the
-- SDK's, a record of functions.
pub mod Debounce
mod Tests
use embed_beetroot_hw_2_7_pr.Prelude.{
  ℕ, ◌+◌, Bool, true, false, not, Option, none, some, List, [], ◌∷◌, ◌==◌, leb, if◌then◌else◌,
  Result, ok, err, EspErr, invalid_arg,
}

abbrev pub pushbutton_debounce_us : ℕ
pushbutton_debounce_us = 25000

-- A timer of the SDK: `esp_timer_stop`; `esp_timer_start_once` at a time, with a timeout; and what
-- becomes of it when the SDK looks at it at some time, with whether it calls the callback.
pub record EspTimer : Type 1 where
  pub Timer : Type 0
  pub stop : Timer → Timer
  pub start_once : ℕ → ℕ → Timer → Timer
  pub dispatch : ℕ → Timer → Bool × Timer

-- The timer of the button, and the events that the owner was told.
pub record Pushbutton (T : Type 0) : Type 0 where
  pub event_mask : ℕ
  pub debounce_timer : T
  pub notified : List ℕ

unfoldable pub pushbutton_isr_handler :
    (esp : EspTimer) → ℕ → Pushbutton esp.Timer → Pushbutton esp.Timer
pushbutton_isr_handler esp now btn =
    let stopped = esp.stop btn.debounce_timer in
    record btn { debounce_timer = esp.start_once now pushbutton_debounce_us stopped }

-- The callback, with the level of the pin.
unfoldable pub pushbutton_debounce_cb : {T : Type 0} → ℕ → Pushbutton T → Pushbutton T
pushbutton_debounce_cb level btn =
    if level == 1 then record btn { notified = btn.event_mask ∷ btn.notified } else btn

-- The calls of the SDK that the initialisation makes.
pub data SdkCall : Type 0 where
  call_gpio_config call_timer_create call_isr_handler_add call_timer_delete : SdkCall

pub record Sdk : Type 0 where
  pub gpio_config : Result (Unit {0})
  pub timer_create : Result (Unit {0})
  pub isr_handler_add : Result (Unit {0})

-- The code, and the calls in their order. `has_button` is `btn != NULL`.
unfoldable pub pushbutton_init : Sdk → Bool → Result (Unit {0}) × List SdkCall
pushbutton_init sdk has_button =
    if not has_button then (err invalid_arg, []) else elim sdk.gpio_config [
      | err e ↦ (err e, call_gpio_config ∷ [])
      | ok configured ↦ elim sdk.timer_create [
        | err e ↦ (err e, call_gpio_config ∷ call_timer_create ∷ [])
        | ok created ↦ elim sdk.isr_handler_add [
          | err e ↦ (
            err e,
            call_gpio_config ∷ call_timer_create ∷ call_isr_handler_add ∷ call_timer_delete ∷ [],
          )
          | ok added ↦ (ok tt, call_gpio_config ∷ call_timer_create ∷ call_isr_handler_add ∷ [])
        ]
      ]
    ]
