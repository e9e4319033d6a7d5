-- ===== src/Telemetry/Stream.antt =====
-- The telemetry task on a stream of notifications: the values are those that the code takes from the
-- frames in the stream one after the other.
use embed_beetroot_hw_2_7_pr.Prelude.{
  ℕ, zero, suc, ◌≡◌, refl, ap, sym, ◌∙◌, subst, Bool, true, List, [], ◌∷◌, ◌++◌, length, Result, ok,
  err,
}
use mathlib.Core.List.{flatten}
use embed_beetroot_hw_2_7_pr.Packet.Reassembly.{
  Frame, FrameBuf, Outcome, extracted, absent, stuck, river2_framebuf_append,
  river2_framebuf_extract,
}
use embed_beetroot_hw_2_7_pr.Packet.Reassembly.Chunks.{frames_in}
use embed_beetroot_hw_2_7_pr.Packet.Reassembly.Client.{
  next_frame, drain, receive, append_done, receive-frames_in,
}
use embed_beetroot_hw_2_7_pr.Session.{Psa}
use embed_beetroot_hw_2_7_pr.Telemetry.{
  Telemetry, TelemetryCtx, Poll, handle_frame, next_extracted, handle_frames, telemetry_round,
  telemetry_loop, telemetry_task, telemetry_init,
}
use embed_beetroot_hw_2_7_pr.Telemetry.Values.{Values, values, heed_if, decode, handle_frame-heed}

module _ (psa : Psa) (ctx : TelemetryCtx) (stack : List ℕ) where
  -- The frames one after the other.
  abbrev pub heed_all : List Frame → Values → Values
  heed_all [] v = v
  heed_all (frame ∷ frames) v = heed_all frames (heed_if (decode psa ctx stack frame) v)

  heed_all-append :
      (xs ys : List Frame) (v : Values) → heed_all (xs ++ ys) v ≡ heed_all ys (heed_all xs v)
  heed_all-append [] ys v = refl
  heed_all-append (x ∷ xs) ys v = heed_all-append xs ys (heed_if (decode psa ctx stack x) v)

  -- The values after some frames, and the buffer.
  abbrev Shows : List Frame × FrameBuf → Telemetry → Telemetry → Type 0
  Shows (frames, fb) s s' = (values s' ≡ heed_all frames (values s)) × (s'.fb ≡ fb)

  next_extracted-Shows :
      (now_us : ℕ) (rest : Telemetry → Telemetry) (more : FrameBuf → List Frame × FrameBuf)
      (s : Telemetry) (r : Outcome × FrameBuf)
      → ((s : Telemetry) → Shows (more s.fb) s (rest s))
      → Shows (next_frame more r) s (next_extracted psa ctx rest now_us stack s r)
  unfolding next_extracted next_frame
  next_extracted-Shows now_us rest more s (extracted frame, fb) h =
      let s1 = record s { fb = fb } in
      let s2 = handle_frame psa ctx now_us stack frame s1 in
      let done = handle_frame-heed psa ctx now_us stack frame s1 in
      let later = subst (λ b. Shows (more b) s2 (rest s2)) done.1 (h s2) in
      (later.0 ∙ ap (heed_all (more fb).0) done.0, later.1)
  next_extracted-Shows now_us rest more s (absent, fb) h = (refl, refl)
  next_extracted-Shows now_us rest more s (stuck, fb) h = (refl, refl)

  handle_frames-Shows :
      (fuel now_us : ℕ) (s : Telemetry)
      → Shows (drain fuel s.fb) s (handle_frames psa ctx fuel true now_us stack s)
  unfolding handle_frames drain
  handle_frames-Shows zero now_us s = (refl, refl)
  handle_frames-Shows (suc fuel) now_us s =
      next_extracted-Shows now_us (handle_frames psa ctx fuel true now_us stack) (drain fuel) s
        (river2_framebuf_extract true s.fb) (handle_frames-Shows fuel now_us)

  -- Memory can be had, and the array on the stack holds what it held.
  abbrev pub AreAlike : List Poll → Type 0
  AreAlike [] = Unit
  AreAlike (poll ∷ polls) = (poll.memory ≡ true) × (poll.stack ≡ stack) × AreAlike polls

abbrev pub chunks_of : List Poll → List (List ℕ)
chunks_of [] = []
chunks_of (poll ∷ polls) = elim (poll.received) [
  | ok chunk ↦ chunk ∷ chunks_of polls
  | err e ↦ chunks_of polls
]

module _ (psa : Psa) (ctx : TelemetryCtx) (stack : List ℕ) where
  round-Shows :
      (now_us : ℕ) (chunk : List ℕ) (s : Telemetry)
      → (let fb = (river2_framebuf_append true s.fb chunk).1 in
          Shows psa ctx stack
            (drain (suc (length fb.bytes)) fb)
            s
            (telemetry_round psa ctx true now_us stack (ok chunk) s))
  unfolding telemetry_round
  round-Shows now_us chunk s =
      let fb = (river2_framebuf_append true s.fb chunk).1 in
      rw (telemetry_round, append_done s.fb chunk)
        (handle_frames-Shows psa ctx stack (suc (length fb.bytes)) now_us (record s { fb = fb }))

  wait-Shows :
      (now_us : ℕ) (received : Result (List ℕ)) (chunks : List (List ℕ))
      (later : Telemetry → Telemetry) (s : Telemetry)
      → ((s : Telemetry) → Shows psa ctx stack (receive chunks s.fb) s (later s))
      → Shows psa ctx stack
          (receive (elim received [ ok chunk ↦ chunk ∷ chunks | err e ↦ chunks ]) s.fb)
          s
          (later (telemetry_round psa ctx true now_us stack received s))
  unfolding telemetry_round receive
  wait-Shows now_us (err e) chunks later s ih = ih s
  wait-Shows now_us (ok chunk) chunks later s ih =
      let fb = (river2_framebuf_append true s.fb chunk).1 in
      let drained = drain (suc (length fb.bytes)) fb in
      let s1 = telemetry_round psa ctx true now_us stack (ok chunk) s in
      let first = round-Shows now_us chunk s in
      let rest =
        subst (λ b. Shows psa ctx stack (receive chunks b) s1 (later s1)) first.1 (ih s1) in
      (
        rest.0
            ∙ ap (heed_all psa ctx stack (receive chunks drained.1).0) first.0
            ∙ sym (heed_all-append psa ctx stack drained.0 (receive chunks drained.1).0 (values s)),
        rest.1,
      )

  loop-Shows :
      (polls : List Poll) (s : Telemetry)
      → AreAlike psa ctx stack polls
      → Shows psa ctx stack (receive (chunks_of polls) s.fb) s (telemetry_loop psa ctx polls s)
  unfolding telemetry_loop receive
  loop-Shows [] s alike = (refl, refl)
  loop-Shows (poll ∷ polls) s alike =
      let later = telemetry_loop psa ctx polls in
      let goal = λ (m : Bool) (array : List ℕ).
        Shows psa ctx stack (receive (chunks_of (poll ∷ polls)) s.fb) s
          (later (telemetry_round psa ctx m poll.now_us array poll.received s)) in
      subst (λ m. goal m poll.stack) (sym alike.0)
        (subst (goal true) (sym alike.1) (
          wait-Shows poll.now_us poll.received (chunks_of polls) later s
            (λ s'. loop-Shows polls s' alike.2)))

  -- The frames in the stream, taken by the dispatch of the code.
  pub telemetry_task-heed_all :
      (polls : List Poll)
      → AreAlike psa ctx stack polls
      → values (telemetry_task psa ctx polls)
        ≡ heed_all psa ctx stack
            (frames_in (flatten (chunks_of polls))).0
            (record { battery_percent = 255; dc_out_state = 255; ac_enabled = 255 })
  unfolding telemetry_task telemetry_init
  telemetry_task-heed_all polls alike =
      let shown = loop-Shows polls telemetry_init alike in
      shown.0
      ∙ ap (λ r. heed_all psa ctx stack r.0 (values telemetry_init))
          (receive-frames_in (chunks_of polls))
