-- ===== src/Auth/Run/Fuel.antt =====
-- The loops that await a reply end: each reply uses up bytes that were buffered or came in.
use embed_beetroot_hw_2_7_pr.Prelude.{
  ℕ, zero, suc, ◌+◌, ◌*◌, ◌≤◌, ◌<◌, ◌≡◌, refl, ap, arith, Bool, true, false, Bool-cases, inl, inr,
  Option, none, some, List, [], ◌∷◌, length-take, ltb, leb, ◌==◌, if◌then◌else◌, ltb→lt, length,
  take, min, Result, ok, err, timeout,
}
use embed_beetroot_hw_2_7_pr.Packet.Words.{river2_frame_data}
use embed_beetroot_hw_2_7_pr.Packet.Reassembly.{
  FrameBuf, Outcome, extracted, absent, stuck, river2_framebuf_append, river2_framebuf_extract,
}
use embed_beetroot_hw_2_7_pr.Packet.Reassembly.Shrinks.{
  Shrinks, river2_framebuf_extract-Shrinks, append_grows,
}
use embed_beetroot_hw_2_7_pr.Ble.Calls.{wait_notification}
use embed_beetroot_hw_2_7_pr.Auth.{
  Reading, World, keep_frame, take_frame, after_append, after_clock, after_wait, wait_round,
  wait_reading, wait_loop, wait_for_frame, notify_chunk_max, step_timeout_ms,
}
use embed_beetroot_hw_2_7_pr.Auth.Replies.{
  Verdict, keep_waiting, finished, go_on, after_reply, incoming, pending, await_reply,
}

-- Fewer bytes are left when a frame was taken, and no more when none was.
abbrev Less : ℕ → Option (List ℕ) × FrameBuf → Type 0
Less n (some payload, fb) = length fb.bytes < n
Less n (none, fb) = length fb.bytes ≤ n

Less-weaken : (m n : ℕ) (r : Option (List ℕ) × FrameBuf) → m ≤ n → Less m r → Less n r
Less-weaken m n (some payload, fb) h l = omega arith
Less-weaken m n (none, fb) h l = omega arith

keep_frame-Less :
    (want : ℕ) (bytes : List ℕ) (rest : FrameBuf → Option (List ℕ) × FrameBuf)
    (r : Outcome × FrameBuf)
    → Shrinks bytes r
    → ((fb : FrameBuf) → length fb.bytes < length bytes → Less (length fb.bytes) (rest fb))
    → Less (length bytes) (keep_frame want rest r)
unfolding keep_frame
keep_frame-Less want bytes rest (extracted frame, fb) h ih =
    elim (Bool-cases (frame.frame_type == want)) [
      | inl same ↦ rw same h
      | inr other ↦
          rw other (Less-weaken (length fb.bytes) (length bytes) (rest fb) (omega arith) (ih fb h))
    ]
keep_frame-Less want bytes rest (absent, fb) h ih = h
keep_frame-Less want bytes rest (stuck, fb) h ih = absurd h

take_frame-Less :
    (fuel want : ℕ) (memory : Bool) (fb : FrameBuf)
    → Less (length fb.bytes) (take_frame fuel memory want fb)
unfolding take_frame
take_frame-Less zero want memory fb = omega arith
take_frame-Less (suc fuel) want memory fb =
    keep_frame-Less want fb.bytes (take_frame fuel memory want) (river2_framebuf_extract memory fb)
      (river2_framebuf_extract-Shrinks memory fb)
      (λ fb' shorter. take_frame-Less fuel want memory fb')

abbrev pub Uses : ℕ → Result (List ℕ) × World → Type 0
Uses n (ok payload, w) = pending w < n
Uses n (err e, w) = Unit

Uses-weaken : (m n : ℕ) (r : Result (List ℕ) × World) → m ≤ n → Uses m r → Uses n r
Uses-weaken m n (ok payload, w) h u = omega arith
Uses-weaken m n (err e, w) h u = tt

round-Uses :
    (otherwise : World → Result (List ℕ) × World) (w : World) (taken : Option (List ℕ) × FrameBuf)
    → Less (length w.fb.bytes) taken
    → ((fb : FrameBuf)
        → length fb.bytes ≤ length w.fb.bytes
        → Uses (pending w) (otherwise (record w { fb = fb })))
    → Uses (pending w) (elim (taken.0) [
      | some payload ↦ (ok payload, record w { fb = taken.1 })
      | none ↦ otherwise (record w { fb = taken.1 })
    ])
unfolding pending
round-Uses otherwise w (some payload, fb) h rest = omega arith
round-Uses otherwise w (none, fb) h rest = rest fb h

after_append-Uses :
    (rest : World → Result (List ℕ) × World) (w : World) (appended : Bool × FrameBuf) (n : ℕ)
    → Uses n (rest (record w { fb = appended.1 }))
    → Uses n (after_append rest w appended)
unfolding after_append
after_append-Uses rest w (true, fb) n h = h
after_append-Uses rest w (false, fb) n h = tt

after_clock-Uses :
    (rest : World → Result (List ℕ) × World) (w : World) (late : Bool) (n : ℕ)
    → Uses n (rest w)
    → Uses n (after_clock rest w late)
unfolding after_clock
after_clock-Uses rest w true n h = tt
after_clock-Uses rest w false n h = h

-- The bytes that one wait can bring.
abbrev brought : Option (List ℕ) → ℕ
brought none = 0
brought (some chunk) = min notify_chunk_max (length chunk)

cut_size :
    (long : List ℕ)
    → length
        (take (if ltb (length long) notify_chunk_max then length long else notify_chunk_max) long)
      ≤ min notify_chunk_max (length long)
cut_size long = elim (Bool-cases (ltb (length long) notify_chunk_max)) [
  | inl short ↦
      rw short
        (omega (arith, length-take (length long) long, ltb→lt (length long) notify_chunk_max short))
  | inr full ↦ rw full (omega (arith, length-take notify_chunk_max long))
]

after_wait-Uses :
    (rest : World → Result (List ℕ) × World) (received : Option (List ℕ)) (w : World) (n : ℕ)
    → ((fb : FrameBuf)
        → length fb.bytes ≤ length w.fb.bytes + brought received
        → Uses n (rest (record w { fb = fb })))
    → Uses n (after_wait rest (wait_notification received notify_chunk_max) w)
unfolding after_wait wait_notification
after_wait-Uses rest none w n ih = ih w.fb (omega arith)
after_wait-Uses rest (some long) w n ih =
    let cut = if ltb (length long) notify_chunk_max then length long else notify_chunk_max in
    let appended = river2_framebuf_append w.memory w.fb (take cut long) in
    let size : length (take cut long) ≤ min notify_chunk_max (length long) = cut_size long in
    after_append-Uses rest w appended n
      (ih appended.1 (omega (arith, append_grows w.memory w.fb (take cut long), size)))

incoming_cons :
    (received : Option (List ℕ)) (later : List Reading) (now : ℕ) (memory : Bool)
    → incoming (record { memory = memory; now = now; received = received } ∷ later)
      ≡ brought received + incoming later
unfolding incoming
incoming_cons none later now memory = refl
incoming_cons (some chunk) later now memory = refl

pending_step :
    (reading : Reading) (later : List Reading) (w : World) (fb fb' : FrameBuf)
    → w.readings ≡ reading ∷ later
    → length fb.bytes ≤ length w.fb.bytes
    → length fb'.bytes ≤ length fb.bytes + brought reading.received
    → length fb'.bytes + incoming later ≤ pending w
unfolding pending incoming
pending_step reading later w fb fb' same shorter grown =
    let sum = incoming_cons reading.received later reading.now reading.memory in
    omega (arith, ap incoming same, sum)

wait_loop-Uses :
    (readings : List Reading) (want deadline : ℕ) (w : World)
    → w.readings ≡ readings
    → Uses (pending w) (wait_loop readings want deadline w)
unfolding wait_loop wait_round wait_reading pending incoming
wait_loop-Uses [] want deadline w same =
    round-Uses (λ w'. (err timeout, w')) w (take_frame (suc (length w.fb.bytes)) w.memory want w.fb)
      (take_frame-Less (suc (length w.fb.bytes)) want w.memory w.fb) (λ fb shorter. tt)
wait_loop-Uses (reading ∷ later) want deadline w same =
    round-Uses
      (λ w'.
        wait_reading deadline reading (wait_loop later want deadline)
          (record w' { readings = later }))
      w (take_frame (suc (length w.fb.bytes)) w.memory want w.fb)
      (take_frame-Less (suc (length w.fb.bytes)) want w.memory w.fb)
      (λ fb shorter.
        let w' = record w {
          fb = fb;
          readings = later;
          clock = reading.now;
          memory = reading.memory;
        } in
        after_clock-Uses
          (after_wait (wait_loop later want deadline)
            (wait_notification reading.received notify_chunk_max))
          w' (leb deadline reading.now) (pending w)
          (after_wait-Uses (wait_loop later want deadline) reading.received w' (pending w)
            (λ fb' grown.
              Uses-weaken (pending (record w' { fb = fb' })) (pending w)
                (wait_loop later want deadline (record w' { fb = fb' }))
                (pending_step reading later w fb fb' same shorter grown)
                (wait_loop-Uses later want deadline (record w' { fb = fb' }) refl))))

pub wait_for_frame-Uses :
    (want timeout_ms : ℕ) (w : World) → Uses (pending w) (wait_for_frame want timeout_ms w)
unfolding wait_for_frame
wait_for_frame-Uses want timeout_ms w =
    wait_loop-Uses w.readings want (w.clock + timeout_ms * 1000) w refl

same_go_on :
    (f g : World → Result (Unit {0}) × World) (verdict : Verdict) (w : World)
    → f w ≡ g w
    → go_on f verdict w ≡ go_on g verdict w
unfolding go_on
same_go_on f g keep_waiting w h = h
same_go_on f g (finished r) w h = refl

same_reply :
    (f g : World → Result (Unit {0}) × World) (judged : List ℕ → Verdict) (n : ℕ)
    (r : Result (List ℕ) × World)
    → Uses n r
    → ((w : World) → pending w < n → f w ≡ g w)
    → after_reply f judged r ≡ after_reply g judged r
unfolding after_reply
same_reply f g judged n (ok reply, w) used h = same_go_on f g (judged reply) w (h w used)
same_reply f g judged n (err e, w) used h = refl

-- With more fuel than bytes are buffered or may come in, the result does not depend on the fuel,
-- however the replies are judged.
pub await_reply-fuel :
    (fuel more : ℕ) (judged : List ℕ → Verdict) (w : World)
    → pending w < fuel
    → pending w < more
    → await_reply fuel judged w ≡ await_reply more judged w
unfolding await_reply
await_reply-fuel zero more judged w h h' = absurd (omega arith)
await_reply-fuel (suc fuel) zero judged w h h' = absurd (omega arith)
await_reply-fuel (suc fuel) (suc more) judged w h h' =
    same_reply (await_reply fuel judged) (await_reply more judged) judged (pending w)
      (wait_for_frame river2_frame_data step_timeout_ms w)
      (wait_for_frame-Uses river2_frame_data step_timeout_ms w)
      (λ w' less. await_reply-fuel fuel more judged w' (omega arith) (omega arith))
