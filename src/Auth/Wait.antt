-- ===== src/Auth/Wait.antt =====
-- `wait_for_frame` against the frames that the stream of notifications holds.
use embed_beetroot_hw_2_7_pr.Prelude.{
  ℕ, suc, ◌+◌, ◌*◌, ◌≡◌, refl, sym, ap, ◌∙◌, arith, subst, Bool, true, false, Option, none, some,
  List, [], ◌∷◌, ◌++◌, append_assoc, append-nil, ltb, leb, if◌then◌else◌, length, take, Result, ok,
  err, timeout,
}
use embed_beetroot_hw_2_7_pr.Packet.Reassembly.{FrameBuf, river2_framebuf_append}
use embed_beetroot_hw_2_7_pr.Packet.Reassembly.Chunks.{prepend, frames_in, frames_in-append}
use embed_beetroot_hw_2_7_pr.Packet.Reassembly.Client.{append_bytes}
use embed_beetroot_hw_2_7_pr.Ble.Calls.{wait_notification}
use embed_beetroot_hw_2_7_pr.Auth.{
  Reading, World, take_frame, after_append, after_clock, after_wait, wait_round, wait_reading,
  wait_loop, wait_for_frame, notify_chunk_max,
}
use embed_beetroot_hw_2_7_pr.Auth.Taking.{
  AreOther-append, First, NoneWanted, Took, prepend-prepend, take_frame-Took, chunk_of, stream,
}

-- Memory can be had at every reading.
abbrev pub HaveMemory : List Reading → Type 0
HaveMemory [] = Unit
HaveMemory (reading ∷ readings) = (reading.memory ≡ true) × HaveMemory readings

-- A result with a payload: some readings were used, and the payload is that of the first wanted
-- frame in the bytes that were there and those that they brought.
pub record Finds (want : ℕ) (bytes : List ℕ) (readings : List Reading) (payload : List ℕ)
    (w' : World) : Type 0 where
  pub used : List Reading
  pub split : readings ≡ used ++ w'.readings
  pub first : First want (bytes ++ stream used) payload w'.fb.bytes

abbrev Outcomes : ℕ → List ℕ → List Reading → Result (List ℕ) × World → Type 0
Outcomes want bytes readings (ok payload, w') = Finds want bytes readings payload w'
Outcomes want bytes readings (err e, w') = Unit

Outcomes-later :
    (want : ℕ) (bytes left : List ℕ) (reading : Reading) (readings : List Reading)
    (r : Result (List ℕ) × World)
    → NoneWanted want bytes left
    → Outcomes want (left ++ chunk_of reading) readings r
    → Outcomes want bytes (reading ∷ readings) r
Outcomes-later want bytes left reading readings (err e, w') before later = tt
Outcomes-later want bytes left reading readings (ok payload, w') before later =
    let chunk = chunk_of reading in
    let more = stream later.used in
    record {
      used = reading ∷ later.used;
      split = ap (λ l. reading ∷ l) later.split;
      first = record {
        skipped = before.skipped ++ later.first.skipped;
        are_other =
            AreOther-append want before.skipped later.first.skipped before.are_other
              later.first.are_other;
        order =
            frames_in-append bytes (chunk ++ more)
            ∙ ap (λ r. prepend r.0 (frames_in (r.1 ++ (chunk ++ more)))) before.order
            ∙ ap (λ l. prepend before.skipped (frames_in l)) (sym (append_assoc left chunk more))
            ∙ ap (prepend before.skipped) later.first.order
            ∙ prepend-prepend before.skipped _ (frames_in w'.fb.bytes)
            ∙ ap (λ l. prepend l (frames_in w'.fb.bytes))
                (sym (
                  append_assoc before.skipped later.first.skipped
                    (record { frame_type = want; payload = payload } ∷ [])));
      };
    }

-- The end of a round, by what was taken.
abbrev round_of :
    (World → Result (List ℕ) × World) → World → Option (List ℕ) × FrameBuf → Result (List ℕ) × World
round_of otherwise w (taken, fb) = elim taken [
  | some payload ↦ (ok payload, record w { fb = fb })
  | none ↦ otherwise (record w { fb = fb })
]

round_end :
    (want : ℕ) (readings : List Reading) (otherwise : World → Result (List ℕ) × World) (w : World)
    → w.readings ≡ readings
    → (taken : Option (List ℕ) × FrameBuf) → Took want w.fb.bytes taken
    → ((fb : FrameBuf)
        → NoneWanted want w.fb.bytes fb.bytes
        → Outcomes want w.fb.bytes readings (otherwise (record w { fb = fb })))
    → Outcomes want w.fb.bytes readings (round_of otherwise w taken)
round_end want readings otherwise w same (some payload, fb) took rest = record {
  used = [];
  split = sym same;
  first = subst (λ l. First want l payload fb.bytes) (sym (append-nil w.fb.bytes)) took;
}
round_end want readings otherwise w same (none, fb) took rest = rest fb took

wait_round-Outcomes :
    (want : ℕ) (readings : List Reading) (otherwise : World → Result (List ℕ) × World) (w : World)
    → w.memory ≡ true
    → w.readings ≡ readings
    → ((fb : FrameBuf)
        → NoneWanted want w.fb.bytes fb.bytes
        → Outcomes want w.fb.bytes readings (otherwise (record w { fb = fb })))
    → Outcomes want w.fb.bytes readings (wait_round want otherwise w)
unfolding wait_round
wait_round-Outcomes want readings otherwise w memory same rest =
    let taken = take_frame (suc (length w.fb.bytes)) w.memory want w.fb in
    let took : Took want w.fb.bytes taken =
      subst (λ m. Took want w.fb.bytes (take_frame (suc (length w.fb.bytes)) m want w.fb))
        (sym memory) (take_frame-Took (suc (length w.fb.bytes)) want w.fb (omega arith)) in
    round_end want readings otherwise w same taken took rest

after_append-Outcomes :
    (want : ℕ) (bytes : List ℕ) (reading : Reading) (later : List Reading)
    (rest : World → Result (List ℕ) × World) (w : World) (appended : Bool × FrameBuf)
    → NoneWanted want bytes w.fb.bytes
    → Outcomes want (w.fb.bytes ++ chunk_of reading) later (rest (record w { fb = appended.1 }))
    → Outcomes want bytes (reading ∷ later) (after_append rest w appended)
unfolding after_append
after_append-Outcomes want bytes reading later rest w (true, fb) before ih =
    Outcomes-later want bytes w.fb.bytes reading later (rest (record w { fb = fb })) before ih
after_append-Outcomes want bytes reading later rest w (false, fb) before ih = tt

after_clock-Outcomes :
    (want : ℕ) (bytes : List ℕ) (readings : List Reading) (rest : World → Result (List ℕ) × World)
    (w : World) (late : Bool)
    → Outcomes want bytes readings (rest w)
    → Outcomes want bytes readings (after_clock rest w late)
unfolding after_clock
after_clock-Outcomes want bytes readings rest w true h = tt
after_clock-Outcomes want bytes readings rest w false h = h

after_wait-Outcomes :
    (want : ℕ) (bytes : List ℕ) (reading : Reading) (later : List Reading)
    (rest : World → Result (List ℕ) × World) (received : Option (List ℕ)) (w : World)
    → reading.received ≡ received
    → w.memory ≡ true
    → NoneWanted want bytes w.fb.bytes
    → ((fb : FrameBuf)
        → fb.bytes ≡ w.fb.bytes ++ chunk_of reading
        → Outcomes want fb.bytes later (rest (record w { fb = fb })))
    → Outcomes want bytes
        (reading ∷ later)
        (after_wait rest (wait_notification received notify_chunk_max) w)
unfolding after_wait wait_notification
after_wait-Outcomes want bytes reading later rest none w e memory before ih =
    let nothing : chunk_of reading ≡ [] =
      ap (λ o. elim (wait_notification o notify_chunk_max) [ ok chunk ↦ chunk | err e ↦ [] ]) e in
    let same : w.fb.bytes ≡ w.fb.bytes ++ chunk_of reading =
      sym (ap (λ l. w.fb.bytes ++ l) nothing ∙ append-nil w.fb.bytes) in
    Outcomes-later want bytes w.fb.bytes reading later (rest w) before
      (subst (λ l. Outcomes want l later (rest w)) same (ih w.fb same))
after_wait-Outcomes want bytes reading later rest (some long) w e memory before ih =
    let chunk =
      take (if ltb (length long) notify_chunk_max then length long else notify_chunk_max) long in
    let arrived : chunk_of reading ≡ chunk =
      ap (λ o. elim (wait_notification o notify_chunk_max) [ ok chunk ↦ chunk | err e ↦ [] ]) e in
    let appended = river2_framebuf_append w.memory w.fb chunk in
    let same : appended.1.bytes ≡ w.fb.bytes ++ chunk_of reading =
      ap (λ m. (river2_framebuf_append m w.fb chunk).1.bytes) memory
      ∙ append_bytes w.fb chunk
      ∙ ap (λ l. w.fb.bytes ++ l) (sym arrived) in
    after_append-Outcomes want bytes reading later rest w appended before (
      subst (λ l. Outcomes want l later (rest (record w { fb = appended.1 }))) same
        (ih appended.1 same))

wait_loop-Outcomes :
    (readings : List Reading) (want deadline : ℕ) (w : World)
    → w.memory ≡ true
    → HaveMemory readings
    → w.readings ≡ readings
    → Outcomes want w.fb.bytes readings (wait_loop readings want deadline w)
unfolding wait_loop wait_reading
wait_loop-Outcomes [] want deadline w memory have same =
    wait_round-Outcomes want [] (λ w'. (err timeout, w')) w memory same (λ fb before. tt)
wait_loop-Outcomes (reading ∷ later) want deadline w memory have same =
    wait_round-Outcomes want (reading ∷ later)
      (λ w'.
        wait_reading deadline reading (wait_loop later want deadline)
          (record w' { readings = later }))
      w memory same
      (λ fb before.
        let w' = record w {
          fb = fb;
          readings = later;
          clock = reading.now;
          memory = reading.memory;
        } in
        after_clock-Outcomes want w.fb.bytes (reading ∷ later)
          (after_wait (wait_loop later want deadline)
            (wait_notification reading.received notify_chunk_max))
          w' (leb deadline reading.now)
          (after_wait-Outcomes want w.fb.bytes reading later (wait_loop later want deadline)
            reading.received w' refl have.0 before
            (λ fb' e.
              wait_loop-Outcomes later want deadline (record w' { fb = fb' }) have.0 have.1 refl)))

-- While memory can be had: a payload that is returned is that of the first frame of the wanted
-- type in the bytes that were buffered and those that the used readings brought, each cut to 512
-- bytes; the frames before it are of other types; the buffer then holds exactly the frames behind
-- it, and the other readings are left for the next call.
pub wait_for_frame-Finds :
    (want timeout_ms : ℕ) (w : World) (payload : List ℕ) (w' : World)
    → w.memory ≡ true
    → HaveMemory w.readings
    → wait_for_frame want timeout_ms w ≡ (ok payload, w')
    → Finds want w.fb.bytes w.readings payload w'
unfolding wait_for_frame
wait_for_frame-Finds want timeout_ms w payload w' memory have e =
    subst (Outcomes want w.fb.bytes w.readings) e
      (wait_loop-Outcomes w.readings want (w.clock + timeout_ms * 1000) w memory have refl)
