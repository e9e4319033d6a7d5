-- ===== src/Auth/Protocol/Awaits.antt =====
-- `wait_for_frame` follows the protocol's `receive_frame`.
use embed_beetroot_hw_2_7_pr.Auth.Protocol.Next.{next-skip, next-First, next-NoneWanted}
use embed_beetroot_hw_2_7_pr.Prelude.{
  ℕ, suc, ◌+◌, ◌*◌, ◌%◌, ◌≤◌, ◌≡◌, refl, sym, ap, ◌∙◌, arith, subst, true, false, Bool-cases, inl,
  inr, Option, none, some, List, [], ◌∷◌, ◌++◌, append_assoc, append-nil, ltb, leb, ◌==◌,
  if◌then◌else◌, length, take, Result, ok, err, timeout,
}
use embed_beetroot_hw_2_7_pr.Packet.Reassembly.{FrameBuf, Frame, river2_framebuf_append}
use embed_beetroot_hw_2_7_pr.Packet.Reassembly.Chunks.{frames_in}
use embed_beetroot_hw_2_7_pr.Ble.Calls.{wait_notification}
use embed_beetroot_hw_2_7_pr.Auth.{
  Reading, World, take_frame, after_append, after_clock, after_wait, wait_round, wait_reading,
  wait_loop, wait_for_frame, notify_chunk_max, step_timeout_ms,
}
use embed_beetroot_hw_2_7_pr.Auth.Taking.{NoneWanted, Took, take_frame-Took, chunk_of, stream}
use embed_beetroot_hw_2_7_pr.Auth.Protocol.{next, received, receive_frame}
use embed_beetroot_hw_2_7_pr.Auth.Protocol.Follows.{AreInTime, IsInTime, view, Matches, Follows}

-- What a wait ends with, when `expected` is the first of the frames to come.
abbrev Ends : ℕ → Option (List ℕ × List Frame) → List (List ℕ) → Result (List ℕ) × World → Type 0
Ends start expected sent (ok payload, w) =
    (expected ≡ some (payload, (view w).incoming)) × IsInTime start w × (w.sent ≡ sent)
Ends start expected sent (err e, w) = (expected ≡ none) × (e ≡ timeout) × (w.sent ≡ sent)

Ends-Matches :
    (start want : ℕ) (w : World) (r : Result (List ℕ) × World)
    → Ends start (next want (view w).incoming) w.sent r
    → Matches start r (receive_frame want (view w))
unfolding receive_frame received
Ends-Matches start want w (ok payload, w') h = (rw (h.0, sym h.2) refl, h.1)
Ends-Matches start want w (err e, w') h = (rw (h.0, h.1) refl, rw h.0 (sym h.2))

module _ (start want deadline : ℕ) (not_before : start + step_timeout_ms * 1000 ≤ deadline) where
  round_end :
      (otherwise : World → Result (List ℕ) × World) (w : World) (more : List ℕ)
      → IsInTime start w
      → more ≡ stream w.readings
      → (taken : Option (List ℕ) × FrameBuf) → Took want w.fb.bytes taken
      → ((fb : FrameBuf)
          → NoneWanted want w.fb.bytes fb.bytes
          → Ends start
              (next want (frames_in (fb.bytes ++ more)).0)
              w.sent
              (otherwise (record w { fb = fb })))
      → Ends start (next want (frames_in (w.fb.bytes ++ more)).0) w.sent (elim (taken.0) [
        | some payload ↦ (ok payload, record w { fb = taken.1 })
        | none ↦ otherwise (record w { fb = taken.1 })
      ])
  round_end otherwise w more in_time same (some payload, fb) took rest = (
    next-First want w.fb.bytes payload fb.bytes more took
        ∙ ap (λ l. some (payload, (frames_in (fb.bytes ++ l)).0)) same,
    record { memory = in_time.memory; started = in_time.started; coming = in_time.coming },
    refl,
  )
  round_end otherwise w more in_time same (none, fb) took rest =
      subst (λ o. Ends start o w.sent (otherwise (record w { fb = fb })))
        (sym (next-NoneWanted want w.fb.bytes fb.bytes more took)) (rest fb took)

  wait_round-Ends :
      (otherwise : World → Result (List ℕ) × World) (w : World) (more : List ℕ)
      → IsInTime start w
      → more ≡ stream w.readings
      → ((fb : FrameBuf)
          → NoneWanted want w.fb.bytes fb.bytes
          → Ends start
              (next want (frames_in (fb.bytes ++ more)).0)
              w.sent
              (otherwise (record w { fb = fb })))
      → Ends start
          (next want (frames_in (w.fb.bytes ++ more)).0)
          w.sent
          (wait_round want otherwise w)
  unfolding wait_round
  wait_round-Ends otherwise w more in_time same rest =
      let took =
        subst (λ m. Took want w.fb.bytes (take_frame (suc (length w.fb.bytes)) m want w.fb))
          (sym in_time.memory)
          (take_frame-Took (suc (length w.fb.bytes)) want w.fb (omega arith)) in
      round_end otherwise w more in_time same
        (take_frame (suc (length w.fb.bytes)) w.memory want w.fb) took rest

  -- An append for which there is memory.
  append-Ends :
      (expected : Option (List ℕ × List Frame)) (rest : World → Result (List ℕ) × World) (w : World)
      (chunk : List ℕ)
      → ((fb : FrameBuf)
          → fb.bytes ≡ w.fb.bytes ++ chunk
          → Ends start expected w.sent (rest (record w { fb = fb })))
      → Ends start expected w.sent (after_append rest w (river2_framebuf_append true w.fb chunk))
  unfolding after_append river2_framebuf_append
  append-Ends expected rest w [] ih = ih w.fb (sym (append-nil w.fb.bytes))
  append-Ends expected rest w (x ∷ xs) ih =
      let not_empty : (suc (length xs) == 0) ≡ false = ground arith in
      elim (Bool-cases (ltb w.fb.cap ((length w.fb.bytes + suc (length xs)) % 4294967296))) [
        | inl grows ↦
            rw (not_empty, grows)
              (ih
                (record w.fb {
                  bytes = w.fb.bytes ++ x ∷ xs;
                  cap = (length w.fb.bytes + suc (length xs)) % 4294967296;
                })
                refl)
        | inr fits ↦ rw (not_empty, fits) (ih (record w.fb { bytes = w.fb.bytes ++ x ∷ xs }) refl)
      ]

  -- The wait of a reading that is in time.
  wait-Ends :
      (rest : World → Result (List ℕ) × World) (received : Option (List ℕ)) (reading : Reading)
      (w : World) (more : List ℕ)
      → reading.received ≡ received
      → w.memory ≡ true
      → ((fb : FrameBuf)
          → Ends start
              (next want (frames_in (fb.bytes ++ more)).0)
              w.sent
              (rest (record w { fb = fb })))
      → Ends start
          (next want (frames_in (w.fb.bytes ++ (chunk_of reading ++ more))).0)
          w.sent
          (after_wait rest (wait_notification received notify_chunk_max) w)
  unfolding after_wait wait_notification
  wait-Ends rest none reading w more e memory ih =
      let nothing : chunk_of reading ≡ [] =
        ap (λ o. elim (wait_notification o notify_chunk_max) [ ok chunk ↦ chunk | err e ↦ [] ]) e in
      subst (λ l. Ends start (next want (frames_in (w.fb.bytes ++ (l ++ more))).0) w.sent (rest w))
        (sym nothing) (ih w.fb)
  wait-Ends rest (some long) reading w more e memory ih =
      let chunk =
        take (if ltb (length long) notify_chunk_max then length long else notify_chunk_max) long in
      let arrived : chunk_of reading ≡ chunk =
        ap (λ o. elim (wait_notification o notify_chunk_max) [ ok chunk ↦ chunk | err e ↦ [] ]) e in
      let expected = next want (frames_in (w.fb.bytes ++ (chunk_of reading ++ more))).0 in
      subst
        (λ m.
          Ends start expected w.sent (after_append rest w (river2_framebuf_append m w.fb chunk)))
        (sym memory)
        (append-Ends expected rest w chunk (λ fb same.
          let together : fb.bytes ++ more ≡ w.fb.bytes ++ (chunk_of reading ++ more) =
            ap (λ l. l ++ more) (same ∙ ap (λ l. w.fb.bytes ++ l) (sym arrived))
            ∙ append_assoc w.fb.bytes (chunk_of reading) more in
          subst (λ l. Ends start (next want (frames_in l).0) w.sent (rest (record w { fb = fb })))
            together (ih fb)))

  none_left :
      (w : World) (fb : FrameBuf)
      → NoneWanted want w.fb.bytes fb.bytes
      → next want (frames_in (fb.bytes ++ [])).0 ≡ none
  unfolding next
  none_left w fb before =
      sym (next-NoneWanted want w.fb.bytes fb.bytes [] before)
      ∙ ap (λ l. next want (frames_in l).0) (append-nil w.fb.bytes)
      ∙ ap (λ r. next want r.0) before.order
      ∙ ap (next want) (sym (append-nil before.skipped))
      ∙ next-skip want before.skipped [] before.are_other

  wait_loop-Ends :
      (readings : List Reading) (w : World)
      → IsInTime start w
      → w.readings ≡ readings
      → Ends start
          (next want (frames_in (w.fb.bytes ++ stream readings)).0)
          w.sent
          (wait_loop readings want deadline w)
  unfolding wait_loop wait_reading after_clock
  wait_loop-Ends [] w in_time same =
      wait_round-Ends (λ w'. (err timeout, w')) w [] in_time (ap stream (sym same))
        (λ fb before. (none_left w fb before, refl, refl))
  wait_loop-Ends (reading ∷ later) w in_time same =
      let coming : AreInTime start (reading ∷ later) =
        subst (AreInTime start) same in_time.coming in
      let early : leb deadline reading.now ≡ false = ground (arith, coming.2, not_before) in
      wait_round-Ends
        (λ w'.
          wait_reading deadline reading (wait_loop later want deadline)
            (record w' { readings = later }))
        w (stream (reading ∷ later)) in_time (ap stream (sym same))
        (λ fb before.
          let w' = record w {
            fb = fb;
            readings = later;
            clock = reading.now;
            memory = reading.memory;
          } in
          subst
            (λ late.
              Ends start (next want (frames_in (fb.bytes ++ stream (reading ∷ later))).0) w.sent (
                after_clock
                  (after_wait (wait_loop later want deadline)
                    (wait_notification reading.received notify_chunk_max))
                  w' late))
            (sym early)
            (wait-Ends (wait_loop later want deadline) reading.received reading w' (stream later)
              refl coming.0
              (λ fb'.
                wait_loop-Ends later (record w' { fb = fb' })
                  (record { memory = coming.0; started = coming.1; coming = coming.3 }) refl)))

pub wait_for_frame-Follows :
    (start want : ℕ) → Follows start (wait_for_frame want step_timeout_ms) (receive_frame want)
unfolding wait_for_frame
wait_for_frame-Follows start want = record {
  at = λ w in_time. Ends-Matches start want w (wait_for_frame want step_timeout_ms w) (
      wait_loop-Ends start want (w.clock + step_timeout_ms * 1000) (omega (arith, in_time.started))
        w.readings w in_time refl);
}
