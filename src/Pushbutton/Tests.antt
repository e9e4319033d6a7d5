-- ===== src/Pushbutton/Tests.antt =====
-- A press that bounces, with a timer that refuses to be started while it runs.
use embed_beetroot_hw_2_7_pr.Prelude.{
  ℕ, ◌+◌, ◌≤◌, ◌<◌, ◌≡◌, refl, ap, arith, Bool, true, false, Option, none, some, List, [], ◌∷◌,
  if◌then◌else◌, ◌==◌, leb,
}
use embed_beetroot_hw_2_7_pr.Pushbutton.{EspTimer, Pushbutton}
use embed_beetroot_hw_2_7_pr.Pushbutton.Debounce.{
  IsOneShot, Moment, edge, tick, run, run-IsBouncing,
}

abbrev start_idle : ℕ → Option ℕ → Option ℕ
start_idle at none = some at
start_idle at (some running) = some running

abbrev look : ℕ → Option ℕ → Bool × Option ℕ
look now none = (false, none)
look now (some at) = if leb at now then (true, none) else (false, some at)

abbrev a_timer : EspTimer
a_timer = record {
  Timer = Option ℕ;
  stop = λ t. none;
  start_once = λ now timeout t. start_idle (now + timeout) t;
  dispatch = look;
}

look-early : (now at : ℕ) (t : Option ℕ) → t ≡ some at → now < at → look now t ≡ (false, t)
look-early now at none e h = cc
look-early now at (some other) e h =
    let same : other ≡ at = cc in
    let early : leb other now ≡ false = ground (arith, same, h) in rw early refl

look-due :
    (now at : ℕ) (t : Option ℕ)
    → t ≡ some at
    → at ≤ now
    → ((look now t).0 ≡ true) × ((look now t).1 ≡ none)
look-due now at none e h = cc
look-due now at (some other) e h =
    let same : other ≡ at = cc in
    let late : leb other now ≡ true = ground (arith, same, h) in rw late (refl, refl)

a_timer-IsOneShot : IsOneShot a_timer (λ t. t)
a_timer-IsOneShot = record {
  stopped = λ t. refl;
  started = λ now timeout t e. ap (start_idle (now + timeout)) e;
  early = look-early;
  due = look-due;
}

abbrev a_button : Pushbutton (Option ℕ)
a_button = record { event_mask = 32; debounce_timer = none; notified = [] }

abbrev bounces : List Moment
bounces = tick 3000 0 ∷ edge 4000 ∷ tick 28000 1 ∷ edge 28500 ∷ []

run-IsBouncing_example :
    let before = run a_timer (edge 10 ∷ bounces) a_button in
    let after = run a_timer (tick 60000 1 ∷ []) before in
    (before.notified ≡ [])
    × (after.notified ≡ (if 1 == 1 then 32 ∷ [] else []))
    × (after.debounce_timer ≡ none)
run-IsBouncing_example =
    run-IsBouncing a_timer (λ t. t) a_timer-IsOneShot bounces 10 60000 1 a_button
      ((omega arith), ((omega arith), tt)) (omega arith)
