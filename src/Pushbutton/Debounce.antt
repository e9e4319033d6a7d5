-- ===== src/Pushbutton/Debounce.antt =====
-- Bouncing contacts.
use embed_beetroot_hw_2_7_pr.Prelude.{
  ℕ, ◌+◌, ◌≤◌, ◌<◌, ◌≡◌, refl, arith, ap, ap₂, ◌∙◌, true, false, Option, none, some, List, [], ◌∷◌,
  ◌==◌, if◌then◌else◌, Bool, sym, subst,
}
use embed_beetroot_hw_2_7_pr.Pushbutton.{
  EspTimer, Pushbutton, pushbutton_debounce_us, pushbutton_isr_handler, pushbutton_debounce_cb,
}

-- What the documentation of the SDK says of a one-shot timer. `expiry` is the time at which it
-- runs out, if it runs. A timer that is stopped does not run; one that does not run can be started;
-- and the callback is called once, when the time has come. That a timer which runs can be started
-- is not said: `esp_timer_start_once` refuses it.
pub record IsOneShot (esp : EspTimer) (expiry : esp.Timer → Option ℕ) : Type 0 where
  pub stopped : (t : esp.Timer) → expiry (esp.stop t) ≡ none
  pub started :
      (now timeout : ℕ) (t : esp.Timer)
      → expiry t ≡ none
      → expiry (esp.start_once now timeout t) ≡ some (now + timeout)
  pub early :
      (now at : ℕ) (t : esp.Timer) → expiry t ≡ some at → now < at → esp.dispatch now t ≡ (false, t)
  pub due :
      (now at : ℕ) (t : esp.Timer)
      → expiry t ≡ some at
      → at ≤ now
      → ((esp.dispatch now t).0 ≡ true) × (expiry (esp.dispatch now t).1 ≡ none)

-- What happens to a button: an edge, or time that passes with the pin at a level.
pub data Moment : Type 0 where
  edge : (now : ℕ) → Moment
  tick : (now level : ℕ) → Moment

-- After an edge at `last`, time passes no further than the debounce time without another edge.
abbrev pub IsBouncing : ℕ → List Moment → Type 0
IsBouncing last [] = Unit
IsBouncing last (edge now ∷ moments) = IsBouncing now moments
IsBouncing last (tick now level ∷ moments) =
    (now < last + pushbutton_debounce_us) × IsBouncing last moments

abbrev pub last_edge : ℕ → List Moment → ℕ
last_edge last [] = last
last_edge last (edge now ∷ moments) = last_edge now moments
last_edge last (tick now level ∷ moments) = last_edge last moments

module _ (esp : EspTimer) where
  -- The SDK calls back where the timer says so.
  abbrev pub called : ℕ → Bool × esp.Timer → Pushbutton esp.Timer → Pushbutton esp.Timer
  called level (true, t) btn = pushbutton_debounce_cb level (record btn { debounce_timer = t })
  called level (false, t) btn = record btn { debounce_timer = t }

  abbrev pub moment : Moment → Pushbutton esp.Timer → Pushbutton esp.Timer
  moment (edge now) btn = pushbutton_isr_handler esp now btn
  moment (tick now level) btn = called level (esp.dispatch now btn.debounce_timer) btn

  abbrev pub run : List Moment → Pushbutton esp.Timer → Pushbutton esp.Timer
  run [] btn = btn
  run (m ∷ moments) btn = run moments (moment m btn)

module _ (esp : EspTimer) (expiry : esp.Timer → Option ℕ) (laws : IsOneShot esp expiry) where
  -- Since an edge at `last`, nobody was told anything.
  record Armed (first now : Pushbutton esp.Timer) (last : ℕ) : Type 0 where
    mask : now.event_mask ≡ first.event_mask
    told : now.notified ≡ first.notified
    runs : expiry now.debounce_timer ≡ some (last + pushbutton_debounce_us)

  edge-Armed :
      (first btn : Pushbutton esp.Timer) (now : ℕ)
      → btn.event_mask ≡ first.event_mask
      → btn.notified ≡ first.notified
      → Armed first (pushbutton_isr_handler esp now btn) now
  unfolding pushbutton_isr_handler
  edge-Armed first btn now mask told = record {
    mask = mask;
    told = told;
    runs = laws.started now pushbutton_debounce_us _ (laws.stopped btn.debounce_timer);
  }

  bounce :
      (moments : List Moment) (last : ℕ) (first btn : Pushbutton esp.Timer)
      → IsBouncing last moments
      → Armed first btn last
      → Armed first (run esp moments btn) (last_edge last moments)
  bounce [] last first btn h armed = armed
  bounce (edge now ∷ moments) last first btn h armed =
      bounce moments now first _ h (edge-Armed first btn now armed.mask armed.told)
  bounce (tick now level ∷ moments) last first btn h armed =
      let quiet =
        laws.early now (last + pushbutton_debounce_us) btn.debounce_timer armed.runs h.0 in
      subst (λ d. Armed first (run esp moments (called esp level d btn)) (last_edge last moments))
        (sym quiet) (bounce moments last first btn h.1 armed)

  told_once :
      (level : ℕ) (d : Bool × esp.Timer) (btn : Pushbutton esp.Timer)
      → d.0 ≡ true
      → ((called esp level d btn).notified
          ≡ (if level == 1 then btn.event_mask ∷ btn.notified else btn.notified))
        × ((called esp level d btn).debounce_timer ≡ d.1)
  unfolding pushbutton_debounce_cb
  told_once level (true, t) btn e = ground arith
  told_once level (false, t) btn e = cc

  -- Over a one-shot timer as the SDK documents it: however often the contacts bounce, as long as no
  -- pause reaches the debounce time, the owner hears nothing; after the pause it hears of one press
  -- if the pin is then high, and of none otherwise; and the timer does not run any more.
  pub run-IsBouncing :
      (moments : List Moment) (first now level : ℕ) (btn : Pushbutton esp.Timer)
      → IsBouncing first moments
      → last_edge first moments + pushbutton_debounce_us ≤ now
      → let before = run esp (edge first ∷ moments) btn in
        let after = run esp (tick now level ∷ []) before in
        (before.notified ≡ btn.notified)
        × (after.notified ≡ (if level == 1 then btn.event_mask ∷ btn.notified else btn.notified))
        × (expiry after.debounce_timer ≡ none)
  run-IsBouncing moments first now level btn h over =
      let before = run esp (edge first ∷ moments) btn in
      let armed = bounce moments first btn _ h (edge-Armed btn btn first refl refl) in
      let (rang, stopped) = laws.due now _ before.debounce_timer armed.runs over in
      let told = told_once level (esp.dispatch now before.debounce_timer) before rang in
      (
        armed.told,
        told.0 ∙ ap₂ (λ m n. if level == 1 then m ∷ n else n) armed.mask armed.told,
        ap expiry told.1 ∙ stopped,
      )
