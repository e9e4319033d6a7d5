-- ===== src/App/Toggle.antt =====
-- When the event loop switches an output.
use embed_beetroot_hw_2_7_pr.Prelude.{
  ℕ, ◌≡◌, refl, ap, ◌∙◌, arith, Bool, true, false, not, ◌&&◌, List, [], ◌∷◌, if◌then◌else◌, ◌==◌,
  Bool-cases, inl, inr,
}
use embed_beetroot_hw_2_7_pr.Telemetry.{evt_ac_state, evt_dc_state}
use embed_beetroot_hw_2_7_pr.App.{
  has_bit, Command, set_ac, set_dc, Loop, loop_init, Round, learn_ac, learn_dc, toggle_ac,
  toggle_dc, loop_round, event_loop, toggle_ac_port_evt, toggle_dc_port_evt,
}

-- The commands to each output, the latest first.
abbrev pub ac_commands : List Command → List Bool
ac_commands [] = []
ac_commands (set_ac on ∷ sent) = on ∷ ac_commands sent
ac_commands (set_dc on ∷ sent) = ac_commands sent

abbrev pub dc_commands : List Command → List Bool
dc_commands [] = []
dc_commands (set_ac on ∷ sent) = dc_commands sent
dc_commands (set_dc on ∷ sent) = on ∷ dc_commands sent

-- No round brings the bit.
abbrev pub NeverSet : ℕ → List Round → Type 0
NeverSet mask [] = Unit
NeverSet mask (r ∷ rounds) = (has_bit r.bits mask ≡ false) × NeverSet mask rounds

-- One output as a switch of its own: what it is believed to be, once it is known, and the
-- commands to it.
pub record Output : Type 0 where
  pub on : Bool
  pub is_known : Bool
  pub commands : List Bool

abbrev pub ac_output : Loop → Output
ac_output s = record { on = s.ac_on; is_known = s.ac_state_known; commands = ac_commands s.sent }

abbrev pub dc_output : Loop → Output
dc_output s = record { on = s.dc_on; is_known = s.dc_state_known; commands = dc_commands s.sent }

-- A report sets what is believed.
abbrev pub report : Bool → Bool → Output → Output
report reported value o = if reported then record o { on = value; is_known = true } else o

-- A press asks for the opposite, which is believed once the command succeeds.
abbrev pub press : Bool → Bool → Output → Output
press pressed succeeds o =
    if pressed && o.is_known
    then record {
      on = if succeeds then not o.on else o.on;
      is_known = true;
      commands = not o.on ∷ o.commands;
    }
    else o

module _ (r : Round) (s : Loop) where
  learn_ac-ac :
      ac_output (learn_ac r s)
      ≡ report (has_bit r.bits evt_ac_state) (not (r.ac_enabled == 0)) (ac_output s)
  unfolding learn_ac
  learn_ac-ac = elim (Bool-cases (has_bit r.bits evt_ac_state)) [
    | inl e ↦ rw e refl
    | inr e ↦ rw e refl
  ]

  learn_ac-dc : dc_output (learn_ac r s) ≡ dc_output s
  unfolding learn_ac
  learn_ac-dc = elim (Bool-cases (has_bit r.bits evt_ac_state)) [
    | inl e ↦ rw e refl
    | inr e ↦ rw e refl
  ]

  learn_dc-dc :
      dc_output (learn_dc r s)
      ≡ report (has_bit r.bits evt_dc_state) (not (r.dc_out_state == 0)) (dc_output s)
  unfolding learn_dc
  learn_dc-dc = elim (Bool-cases (has_bit r.bits evt_dc_state)) [
    | inl e ↦ rw e refl
    | inr e ↦ rw e refl
  ]

  learn_dc-ac : ac_output (learn_dc r s) ≡ ac_output s
  unfolding learn_dc
  learn_dc-ac = elim (Bool-cases (has_bit r.bits evt_dc_state)) [
    | inl e ↦ rw e refl
    | inr e ↦ rw e refl
  ]

  toggle_ac-ac :
      ac_output (toggle_ac r s)
      ≡ press (has_bit r.bits toggle_ac_port_evt) r.ac_result (ac_output s)
  unfolding toggle_ac
  toggle_ac-ac = elim (Bool-cases (has_bit r.bits toggle_ac_port_evt)) [
    | inr e ↦ rw e refl
    | inl e ↦ rw e (ground arith)
  ]

  toggle_ac-dc : dc_output (toggle_ac r s) ≡ dc_output s
  unfolding toggle_ac
  toggle_ac-dc = elim (Bool-cases (has_bit r.bits toggle_ac_port_evt)) [
    | inr e ↦ rw e refl
    | inl e ↦ rw e (ground arith)
  ]

  toggle_dc-dc :
      dc_output (toggle_dc r s)
      ≡ press (has_bit r.bits toggle_dc_port_evt) r.dc_result (dc_output s)
  unfolding toggle_dc
  toggle_dc-dc = elim (Bool-cases (has_bit r.bits toggle_dc_port_evt)) [
    | inr e ↦ rw e refl
    | inl e ↦ rw e (ground arith)
  ]

  toggle_dc-ac : ac_output (toggle_dc r s) ≡ ac_output s
  unfolding toggle_dc
  toggle_dc-ac = elim (Bool-cases (has_bit r.bits toggle_dc_port_evt)) [
    | inr e ↦ rw e refl
    | inl e ↦ rw e (ground arith)
  ]

-- What a round does to each switch.
abbrev pub ac_turn : Round → Output → Output
ac_turn r o =
    press (has_bit r.bits toggle_ac_port_evt) r.ac_result
      (report (has_bit r.bits evt_ac_state) (not (r.ac_enabled == 0)) o)

abbrev pub dc_turn : Round → Output → Output
dc_turn r o =
    press (has_bit r.bits toggle_dc_port_evt) r.dc_result
      (report (has_bit r.bits evt_dc_state) (not (r.dc_out_state == 0)) o)

abbrev pub turns : (Round → Output → Output) → List Round → Output → Output
turns turn [] o = o
turns turn (r ∷ rounds) o = turns turn rounds (turn r o)

ac_round : (r : Round) (s : Loop) → ac_output (loop_round r s) ≡ ac_turn r (ac_output s)
unfolding loop_round
ac_round r s =
    toggle_dc-ac r (toggle_ac r (learn_dc r (learn_ac r s)))
    ∙ toggle_ac-ac r (learn_dc r (learn_ac r s))
    ∙ ap (press (has_bit r.bits toggle_ac_port_evt) r.ac_result)
        (learn_dc-ac r (learn_ac r s) ∙ learn_ac-ac r s)

dc_round : (r : Round) (s : Loop) → dc_output (loop_round r s) ≡ dc_turn r (dc_output s)
unfolding loop_round
dc_round r s =
    toggle_dc-dc r (toggle_ac r (learn_dc r (learn_ac r s)))
    ∙ ap (press (has_bit r.bits toggle_dc_port_evt) r.dc_result) (
        toggle_ac-dc r (learn_dc r (learn_ac r s))
        ∙ learn_dc-dc r (learn_ac r s)
        ∙ ap (report (has_bit r.bits evt_dc_state) (not (r.dc_out_state == 0))) (learn_ac-dc r s))

-- The event loop is two switches that do not disturb each other: in any sequence of rounds each
-- output is reported, and toggled to the opposite of what is believed, by its own bits alone.
pub event_loop-turns :
    (rounds : List Round) (s : Loop)
    → (ac_output (event_loop rounds s) ≡ turns ac_turn rounds (ac_output s))
      × (dc_output (event_loop rounds s) ≡ turns dc_turn rounds (dc_output s))
unfolding event_loop
event_loop-turns [] s = (refl, refl)
event_loop-turns (r ∷ rounds) s =
    let (ac, dc) = event_loop-turns rounds (loop_round r s) in
    (ac ∙ ap (turns ac_turn rounds) (ac_round r s), dc ∙ ap (turns dc_turn rounds) (dc_round r s))

quiet : (pressed succeeds : Bool) (o : Output) → o.is_known ≡ false → press pressed succeeds o ≡ o
quiet true succeeds o k = rw k refl
quiet false succeeds o k = refl

turns_unknown :
    (rounds : List Round) (o : Output)
    → NeverSet evt_ac_state rounds
    → o.is_known ≡ false
    → turns ac_turn rounds o ≡ o
turns_unknown [] o h k = refl
turns_unknown (r ∷ rounds) o h k =
    let still : ac_turn r o ≡ o =
      rw h.0 (quiet (has_bit r.bits toggle_ac_port_evt) r.ac_result o k) in
    ap (turns ac_turn rounds) still ∙ turns_unknown rounds o h.1 k

-- Until the telemetry reports the AC output, presses of its button send nothing.
pub event_loop-no_ac :
    (rounds : List Round)
    → NeverSet evt_ac_state rounds
    → ac_commands (event_loop rounds loop_init).sent ≡ []
unfolding loop_init
event_loop-no_ac rounds h =
    ap (λ o. o.commands)
      ((event_loop-turns rounds loop_init).0 ∙ turns_unknown rounds (ac_output loop_init) h refl)
