-- ===== src/Packet/Reassembly/Prefix.antt =====
-- A whole round of the reassembler with more bytes behind: a round that waits has dropped only what
-- no later bytes could have made part of a frame.
use embed_beetroot_hw_2_7_pr.Packet.Reassembly.Search.{
  find_prefix_inside, find_prefix-append, find_prefix-append_none, shifted,
}
use embed_beetroot_hw_2_7_pr.Prelude.{
  ℕ, zero, suc, ◌+◌, ◌-◌, ◌<◌, ◌≤◌, ◌≡◌, ◌≢◌, inl, inr, refl, sym, ap, ◌∙◌, arith, false,
  Bool-cases, Option-cases, none, some, List, [], ◌∷◌, ◌++◌, ltb, if◌then◌else◌, length,
  length-append, length-drop, drop, drop-append, drop-drop, subst,
}
use embed_beetroot_hw_2_7_pr.Packet.Reassembly.{
  Frame, find_prefix, Scan, wait, again, found, scan_frame, scan,
}
use embed_beetroot_hw_2_7_pr.Packet.Reassembly.Rounds.{
  Round, scan_frame-Round, Round-wait, Round-again_append, Round-found_append, Round-found_fits,
  Round-again_shrinks,
}

drop_if : (n : ℕ) (bytes : List ℕ) → (if ltb 0 n then drop n bytes else bytes) ≡ drop n bytes
drop_if zero bytes = refl
drop_if (suc n) bytes = ground arith

pub scan-prefix :
    (bytes : List ℕ) (start : ℕ)
    → find_prefix bytes ≡ some start
    → scan bytes ≡ scan_frame (drop start bytes)
unfolding scan
scan-prefix bytes start h =
    let (inside, _) = find_prefix_inside bytes start h in
    let long : ltb (length bytes) 2 ≡ false = ground arith in
    rw (long, h) (ap scan_frame (drop_if start bytes))

scan-no_prefix :
    (bytes : List ℕ) (n : ℕ)
    → find_prefix bytes ≡ none
    → length bytes ≡ suc n
    → scan bytes ≡ wait (drop n bytes)
unfolding scan
scan-no_prefix bytes n h l = elim (Bool-cases (ltb (length bytes) 2)) [
  | inl short ↦ let e : n ≡ 0 = ground arith in rw (short, e) refl
  | inr long ↦ let e : length bytes - 1 ≡ n = omega arith in rw (long, h, e) refl
]

waits_at_prefix :
    (bytes more left : List ℕ) (start : ℕ)
    → find_prefix bytes ≡ some start
    → scan bytes ≡ wait left
    → scan (bytes ++ more) ≡ scan (left ++ more)
waits_at_prefix bytes more left start e h =
    let rest = drop start bytes in
    let (inside, at_front) = find_prefix_inside bytes start e in
    let kept : left ≡ rest =
      Round-wait rest
        (subst (Round rest) (sym (scan-prefix bytes start e) ∙ h) (scan_frame-Round rest)) in
    scan-prefix (bytes ++ more) start (find_prefix-append bytes more start e)
    ∙ ap scan_frame (drop-append start bytes more (omega arith))
    ∙ sym (scan-prefix (rest ++ more) 0 (find_prefix-append rest more 0 at_front))
    ∙ ap (λ l. scan (l ++ more)) (sym kept)

after_dropping :
    (bytes more : List ℕ) (n : ℕ)
    → find_prefix bytes ≡ none
    → length bytes ≡ suc n
    → scan (bytes ++ more) ≡ scan (drop n bytes ++ more)
unfolding shifted
after_dropping bytes more n e l =
    let dropped : drop n (bytes ++ more) ≡ drop n bytes ++ more =
      drop-append n bytes more (omega arith) in
    let search = find_prefix-append_none bytes more n e l in
    elim (Option-cases (find_prefix (drop n bytes ++ more))) [
      | inl e' ↦
          scan-no_prefix (bytes ++ more) (n + length more) (search ∙ ap (shifted n) e')
            (omega (arith, length-append bytes more))
          ∙ ap wait
              (sym (drop-drop (length more) n (bytes ++ more)) ∙ ap (drop (length more)) dropped)
          ∙ sym (
              scan-no_prefix (drop n bytes ++ more) (length more) e'
                (omega (arith, length-append (drop n bytes) more, length-drop n bytes)))
      | inr (i, e') ↦
          scan-prefix (bytes ++ more) (n + i) (search ∙ ap (shifted n) e')
          ∙ ap scan_frame (sym (drop-drop i n (bytes ++ more)) ∙ ap (drop i) dropped)
          ∙ sym (scan-prefix (drop n bytes ++ more) i e')
    ]

pub scan-nil : scan [] ≡ wait []
unfolding scan
scan-nil = refl

wait-injective : {xs ys : List ℕ} → wait xs ≡ wait ys → xs ≡ ys
wait-injective e = cc

waits_for_prefix :
    (bytes more left : List ℕ)
    → find_prefix bytes ≡ none
    → scan bytes ≡ wait left
    → scan (bytes ++ more) ≡ scan (left ++ more)
waits_for_prefix [] more left e h = ap (λ l. scan (l ++ more)) (wait-injective (sym scan-nil ∙ h))
waits_for_prefix (x ∷ xs) more left e h =
    after_dropping (x ∷ xs) more (length xs) e refl
    ∙ ap (λ l. scan (l ++ more))
        (wait-injective (sym (scan-no_prefix (x ∷ xs) (length xs) e refl) ∙ h))

-- The round after a round that waited, and the round over all bytes at once, are the same.
pub scan-wait :
    (bytes more left : List ℕ) → scan bytes ≡ wait left → scan (bytes ++ more) ≡ scan (left ++ more)
scan-wait bytes more left h = elim (Option-cases (find_prefix bytes)) [
  | inr (start, e) ↦ waits_at_prefix bytes more left start e h
  | inl e ↦ waits_for_prefix bytes more left e h
]

-- A round that goes on, or that finds a frame, does the same when bytes are added behind.
at_prefix :
    (bytes : List ℕ) {s : Scan}
    → ((left : List ℕ) → s ≢ wait left)
    → scan bytes ≡ s
    → (start : ℕ) × (find_prefix bytes ≡ some start) × Round (drop start bytes) s
at_prefix bytes {s} goes h = elim (Option-cases (find_prefix bytes)) [
  | inr (start, e) ↦ (
    start,
    e,
    subst (Round (drop start bytes)) (sym (scan-prefix bytes start e) ∙ h)
        (scan_frame-Round (drop start bytes)),
  )
  | inl e ↦ absurd (none_waits bytes e h)
]
  where
    none_waits : (xs : List ℕ) → find_prefix xs ≡ none → scan xs ≡ s → ⊥
    none_waits [] e h = goes [] (sym h ∙ scan-nil)
    none_waits (x ∷ xs) e h =
        goes (drop (length xs) (x ∷ xs)) (sym h ∙ scan-no_prefix (x ∷ xs) (length xs) e refl)

pub scan-again :
    (bytes more left : List ℕ)
    → scan bytes ≡ again left
    → (scan (bytes ++ more) ≡ again (left ++ more)) × (length left < length bytes)
scan-again bytes more left h =
    let (start, e, round) = at_prefix bytes (λ l c. cc) h in
    let (inside, _) = find_prefix_inside bytes start e in
    (
      scan-prefix (bytes ++ more) start (find_prefix-append bytes more start e)
          ∙ ap scan_frame (drop-append start bytes more (omega arith))
          ∙ Round-again_append (drop start bytes) more round,
      omega (arith, Round-again_shrinks (drop start bytes) round, length-drop start bytes),
    )

pub scan-found :
    (bytes more left : List ℕ) (frame : Frame) (data_end : ℕ)
    → scan bytes ≡ found frame left data_end
    → (scan (bytes ++ more) ≡ found frame (left ++ more) data_end)
      × (length left ≤ length bytes)
      × (8 ≤ data_end)
      × (data_end ≤ length left)
scan-found bytes more left frame data_end h =
    let (start, e, round) = at_prefix bytes (λ l c. cc) h in
    let (inside, _) = find_prefix_inside bytes start e in
    let (same, low, high) = Round-found_fits (drop start bytes) round in
    let kept = ap length same in
    (
      scan-prefix (bytes ++ more) start (find_prefix-append bytes more start e)
          ∙ ap scan_frame (drop-append start bytes more (omega arith))
          ∙ Round-found_append (drop start bytes) more round,
      omega (arith, kept, length-drop start bytes),
      low,
      omega (arith, kept),
    )

pub scan_wait_length : (bytes left : List ℕ) → scan bytes ≡ wait left → length left ≤ length bytes
scan_wait_length bytes left h = elim (Option-cases (find_prefix bytes)) [
  | inr (start, e) ↦
      let rest = drop start bytes in
      let kept =
        Round-wait rest
          (subst (Round rest) (sym (scan-prefix bytes start e) ∙ h) (scan_frame-Round rest)) in
      omega (arith, ap length kept, length-drop start bytes)
  | inl e ↦ no_prefix bytes e h
]
  where
    no_prefix :
        (xs : List ℕ) → find_prefix xs ≡ none → scan xs ≡ wait left → length left ≤ length xs
    no_prefix [] e h = omega (arith, ap length (wait-injective (sym scan-nil ∙ h)))
    no_prefix (x ∷ xs) e h = omega (
      arith,
      ap length (wait-injective (sym (scan-no_prefix (x ∷ xs) (length xs) e refl) ∙ h)),
      length-drop (length xs) (x ∷ xs),
    )
