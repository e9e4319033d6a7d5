-- ===== src/Packet/Reassembly/Extract.antt =====
-- The loop of `river2_framebuf_extract`: it always ends with the fuel given, and each way that a
-- round can go has its equation.
use embed_beetroot_hw_2_7_pr.Prelude.{
  ℕ, zero, suc, ◌+◌, ◌%◌, ◌<◌, ◌≤◌, ◌^◌, ◌≡◌, ◌⊎◌, ◌↔◌, length-append, inl, inr, refl, sym, ◌∙◌,
  arith, Bool, false, Bool-cases, List, [], ◌∷◌, ◌++◌, ltb, ◌==◌, if◌then◌else◌, length,
  length-drop, drop, append-nil,
}
use embed_beetroot_hw_2_7_pr.Packet.Reassembly.{
  FrameBuf, Frame, Scan, wait, again, found, scan, Outcome, extracted, absent, stuck, deliver,
  extract_loop, river2_framebuf_extract, river2_framebuf_append,
}
use embed_beetroot_hw_2_7_pr.Packet.Reassembly.Prefix.{scan-again, scan-found, scan_wait_length}

-- To split on a round and keep its equation.
pub data ScanCases (s : Scan) : Type 0 where
  is_wait : (left : List ℕ) → s ≡ wait left → ScanCases s
  is_again : (left : List ℕ) → s ≡ again left → ScanCases s
  is_found : (frame : Frame) (left : List ℕ) (n : ℕ) → s ≡ found frame left n → ScanCases s

pub scan_cases : (s : Scan) → ScanCases s
scan_cases (wait left) = is_wait left refl
scan_cases (again left) = is_again left refl
scan_cases (found frame left n) = is_found frame left n refl

module _ (fuel : ℕ) (grown : Bool) (fb : FrameBuf) where
  extract_loop-wait :
      (left : List ℕ)
      → scan fb.bytes ≡ wait left
      → extract_loop (suc fuel) grown fb ≡ (absent, record fb { bytes = left })
  unfolding extract_loop
  extract_loop-wait left e = rw (e, extract_loop) refl

  extract_loop-again :
      (left : List ℕ)
      → scan fb.bytes ≡ again left
      → extract_loop (suc fuel) grown fb ≡ extract_loop fuel grown (record fb { bytes = left })
  unfolding extract_loop
  extract_loop-again left e = rw (e, extract_loop) refl

  extract_loop-found :
      (frame : Frame) (left : List ℕ) (n : ℕ)
      → scan fb.bytes ≡ found frame left n
      → extract_loop (suc fuel) grown fb ≡ deliver grown (record fb { bytes = left }) frame n
  unfolding extract_loop
  extract_loop-found frame left n e = rw (e, extract_loop) refl

pub again_shrinks : (bytes left : List ℕ) → scan bytes ≡ again left → length left < length bytes
again_shrinks bytes left h = (scan-again bytes [] left h).1

-- With fuel above the number of bytes, its amount does not matter.
extract_loop-fuel :
    (f g : ℕ) (grown : Bool) (fb : FrameBuf)
    → length fb.bytes < f
    → length fb.bytes < g
    → extract_loop f grown fb ≡ extract_loop g grown fb
extract_loop-fuel zero g grown fb hf hg = absurd (omega arith)
extract_loop-fuel (suc f) zero grown fb hf hg = absurd (omega arith)
extract_loop-fuel (suc f) (suc g) grown fb hf hg = elim (scan_cases (scan fb.bytes)) [
  | is_wait left e ↦ extract_loop-wait f grown fb left e ∙ sym (extract_loop-wait g grown fb left e)
  | is_again left e ↦
      extract_loop-again f grown fb left e
      ∙ extract_loop-fuel f g grown (record fb { bytes = left })
          (omega (arith, again_shrinks fb.bytes left e))
          (omega (arith, again_shrinks fb.bytes left e))
      ∙ sym (extract_loop-again g grown fb left e)
  | is_found frame left n e ↦
      extract_loop-found f grown fb frame left n e
      ∙ sym (extract_loop-found g grown fb frame left n e)
]

module _ (grown : Bool) (fb : FrameBuf) where
  pub extract-wait :
      (left : List ℕ)
      → scan fb.bytes ≡ wait left
      → river2_framebuf_extract grown fb ≡ (absent, record fb { bytes = left })
  unfolding river2_framebuf_extract
  extract-wait left e = extract_loop-wait (length fb.bytes) grown fb left e

  pub extract-again :
      (left : List ℕ)
      → scan fb.bytes ≡ again left
      → river2_framebuf_extract grown fb
        ≡ river2_framebuf_extract grown (record fb { bytes = left })
  unfolding river2_framebuf_extract
  extract-again left e =
      extract_loop-again (length fb.bytes) grown fb left e
      ∙ extract_loop-fuel (length fb.bytes) (suc (length left)) grown (record fb { bytes = left })
          (again_shrinks fb.bytes left e) (omega arith)

  pub extract-found :
      (frame : Frame) (left : List ℕ) (n : ℕ)
      → scan fb.bytes ≡ found frame left n
      → river2_framebuf_extract grown fb ≡ deliver grown (record fb { bytes = left }) frame n
  unfolding river2_framebuf_extract
  extract-found frame left n e = extract_loop-found (length fb.bytes) grown fb frame left n e

-- The arrays are as large as what they hold.
pub record IsValid (fb : FrameBuf) : Type 0 where
  pub bytes_fit : length fb.bytes ≤ fb.cap
  pub scratch_fits : length fb.scratch ≤ fb.scratch_cap

-- What a call may do to the buffer, by what it returns: a frame is taken out whole, with its six
-- header and two CRC bytes, and is what `scratch` holds if it is not empty.
abbrev pub Extracts : FrameBuf → Outcome × FrameBuf → Type 0
Extracts fb (extracted frame, fb') =
    (length fb'.bytes + 8 ≤ length fb.bytes)
    × IsValid fb'
    × ((frame.payload ≡ []) ⊎ (frame.payload ≡ fb'.scratch))
Extracts fb (absent, fb') = (length fb'.bytes ≤ length fb.bytes) × IsValid fb'
Extracts fb (stuck, fb') = ⊥

empty_payload : (xs : List ℕ) → ltb 0 (length xs) ≡ false → xs ≡ []
empty_payload [] h = refl
empty_payload (x ∷ xs) h = absurd (ground arith)

deliver-Extracts :
    (grown : Bool) (fb : FrameBuf) (frame : Frame) (n : ℕ)
    → IsValid fb
    → 8 ≤ n
    → n ≤ length fb.bytes
    → Extracts fb (deliver grown fb frame n)
unfolding deliver
deliver-Extracts grown fb frame n v low high =
    let shorter : length (drop n fb.bytes) + 8 ≤ length fb.bytes =
      omega (arith, length-drop n fb.bytes) in
    elim (Bool-cases (ltb 0 (length frame.payload))) [
      | inr none_sent ↦
          rw none_sent (shorter, omega arith, inl (empty_payload frame.payload none_sent))
      | inl sent ↦ rw sent (elim (Bool-cases (ltb fb.scratch_cap (length frame.payload))) [
        | inr roomy ↦ rw roomy (shorter, ground arith, inr refl)
        | inl small ↦ rw small (elim (Bool-cases grown) [
          | inl yes_grown ↦ rw yes_grown (shorter, omega arith, inr refl)
          | inr not_grown ↦ rw not_grown (omega arith, v)
        ])
      ])
    ]

Extracts-weaken :
    (fb fb' : FrameBuf) (r : Outcome × FrameBuf)
    → length fb'.bytes ≤ length fb.bytes
    → Extracts fb' r
    → Extracts fb r
Extracts-weaken fb fb' (extracted frame, fb'') h x = (omega arith, x.1, x.2)
Extracts-weaken fb fb' (absent, fb'') h x = (omega arith, x.1)
Extracts-weaken fb fb' (stuck, fb'') h x = x

extract-Extracts_below :
    (k : ℕ) (grown : Bool) (fb : FrameBuf)
    → IsValid fb
    → length fb.bytes < k
    → Extracts fb (river2_framebuf_extract grown fb)
extract-Extracts_below zero grown fb v h = absurd (omega arith)
extract-Extracts_below (suc k) grown fb v h = elim (scan_cases (scan fb.bytes)) [
  | is_wait left e ↦
      let shorter = scan_wait_length fb.bytes left e in
      rw (extract-wait grown fb left e) (shorter, omega arith)
  | is_again left e ↦
      let shorter = again_shrinks fb.bytes left e in
      let fb' = record fb { bytes = left } in
      rw (extract-again grown fb left e) (
        Extracts-weaken fb fb' (river2_framebuf_extract grown fb') (omega arith)
          (extract-Extracts_below k grown fb' (omega arith) (omega arith)))
  | is_found frame left n e ↦
      let (_, shorter, low, high) = scan-found fb.bytes [] left frame n e in
      let fb' = record fb { bytes = left } in
      rw (extract-found grown fb frame left n e) (
        Extracts-weaken fb fb' (deliver grown fb' frame n) shorter
          (deliver-Extracts grown fb' frame n (omega arith) low high))
]

-- A call on a valid buffer always ends with a result of the source, whether or not memory can be
-- had: it returns a frame and has taken at least eight bytes out, or it returns false and has
-- added none; and the arrays are as large as what they hold afterwards.
pub river2_framebuf_extract-Extracts :
    (grown : Bool) (fb : FrameBuf) → IsValid fb → Extracts fb (river2_framebuf_extract grown fb)
river2_framebuf_extract-Extracts grown fb v =
    extract-Extracts_below (suc (length fb.bytes)) grown fb v (omega arith)

-- On a valid buffer whose bytes and the new ones stay below the address space, the result is
-- false exactly when memory was needed and could not be had, which leaves the buffer as it was;
-- otherwise the new bytes stand behind the old ones. The buffer stays valid.
pub river2_framebuf_append_lem :
    (grown : Bool) (fb : FrameBuf) (new : List ℕ)
    → IsValid fb
    → length fb.bytes + length new < 2 ^ 32
    → let (done, fb') = river2_framebuf_append grown fb new in
      IsValid fb'
      × (fb'.bytes ≡ (if done then fb.bytes ++ new else fb.bytes))
      × ((done ≡ false) ↔ ((grown ≡ false) × (fb.cap < length fb.bytes + length new)))
unfolding river2_framebuf_append
river2_framebuf_append_lem grown fb [] v h =
    (v, sym (append-nil fb.bytes), ((λ e. cc), (λ p. absurd (omega arith))))
river2_framebuf_append_lem grown fb (x ∷ xs) v h =
    let new = x ∷ xs in
    let some_new : (length new == 0) ≡ false = ground arith in
    let total : (length fb.bytes + length new) % 2 ^ 32 ≡ length fb.bytes + length new =
      omega arith in
    let longer = length-append fb.bytes new in
    elim (Bool-cases (ltb fb.cap (length fb.bytes + length new))) [
      | inr roomy ↦
          rw (some_new, total, roomy)
            (
              record { bytes_fit = ground (arith, longer); scratch_fits = v.scratch_fits },
              refl,
              ((λ e. cc), (λ p. absurd (ground arith))),
            )
      | inl full ↦
          rw (some_new, total, full)
            (elim (Bool-cases grown) [
              | inl yes_grown ↦ rw yes_grown (
                record { bytes_fit = omega (arith, longer); scratch_fits = v.scratch_fits },
                refl,
                ((λ e. cc), (λ p. cc (p.0))),
              )
              | inr not_grown ↦ rw not_grown (v, refl, ((λ e. (refl, ground arith)), (λ p. refl)))
            ])
    ]
