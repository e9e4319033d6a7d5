-- ===== src/Telemetry/Throttle.antt =====
-- The battery notifications over time.
use embed_beetroot_hw_2_7_pr.Prelude.{
  ℕ, ◌+◌, ◌*◌, ◌≤◌, ◌≡◌, refl, arith, false, List, [], ◌∷◌, if◌then◌else◌, ◌==◌, length, inl, inr,
  Bool-cases, ◌∙◌, subst,
}
use embed_beetroot_hw_2_7_pr.Packet.Inner.{InnerPacket}
use embed_beetroot_hw_2_7_pr.Telemetry.{Telemetry, evt_battery_level, handle_packet}
use embed_beetroot_hw_2_7_pr.Telemetry.Edges.{sends, Told, handle_packet-Told}

-- The bits that a step sent, by what the owner's log says before and after it.
abbrev head_or_none : List ℕ → ℕ
head_or_none [] = 0
head_or_none (bits ∷ older) = bits

abbrev pub newest : List ℕ → List ℕ → ℕ
newest older now = if length now == length older then 0 else head_or_none now

-- The packets with the times at which they are handled; the times of the battery notifications.
abbrev pub battery_times : ℕ → List (ℕ × InnerPacket) → Telemetry → List ℕ
battery_times interval_ms [] s = []
battery_times interval_ms ((now_us, pkt) ∷ packets) s =
    let s' = handle_packet interval_ms now_us pkt s in
    let later = battery_times interval_ms packets s' in
    if sends (newest s.notified s'.notified) evt_battery_level then now_us ∷ later else later

-- Each time is `gap` after the one before, and the first not before `from`.
abbrev pub IsSpaced : ℕ → ℕ → List ℕ → Type 0
IsSpaced gap from [] = Unit
IsSpaced gap from (t ∷ times) = (from ≤ t) × IsSpaced gap (t + gap) times

Told-newest :
    (interval_ms now_us : ℕ) (s s' : Telemetry) (told : Told interval_ms now_us s s')
    → newest s.notified s'.notified ≡ told.bits
Told-newest interval_ms now_us s s' told = elim (Bool-cases (told.bits == 0)) [
  | inl none_sent ↦
      let same : s'.notified ≡ s.notified = told.posted ∙ (rw none_sent refl) in
      rw same (ground arith)
  | inr some_sent ↦
      let grown : s'.notified ≡ told.bits ∷ s.notified = told.posted ∙ (rw some_sent refl) in
      let longer : (length (told.bits ∷ s.notified) == length s.notified) ≡ false = ground arith in
      rw grown (rw longer refl)
]

-- The first battery notification is not before the time that is set, and each further one not
-- before the interval after the last, whatever packets come and when.
pub battery_times-IsSpaced :
    (interval_ms : ℕ) (packets : List (ℕ × InnerPacket)) (s : Telemetry)
    → IsSpaced (interval_ms * 1000) s.next_notify_us (battery_times interval_ms packets s)
battery_times-IsSpaced interval_ms [] s = tt
battery_times-IsSpaced interval_ms ((now_us, pkt) ∷ packets) s =
    let s' = handle_packet interval_ms now_us pkt s in
    let told = handle_packet-Told interval_ms now_us pkt s in
    let later = battery_times-IsSpaced interval_ms packets s' in
    let which = Told-newest interval_ms now_us s s' told in
    elim told.battery_due [
      | inl (due, reached, moved) ↦
          rw (which, due)
            (
              reached,
              subst
                  (λ from.
                    IsSpaced (interval_ms * 1000) from (battery_times interval_ms packets s'))
                  moved later,
            )
      | inr (silent, kept) ↦
          rw (which, silent)
            (subst
              (λ from. IsSpaced (interval_ms * 1000) from (battery_times interval_ms packets s'))
              kept later)
    ]
