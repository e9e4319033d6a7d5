-- ===== src/Packet/Reassembly/Chunks.antt =====
-- The frames that a string of bytes holds, and their concatenation law: taking the frames out of
-- some bytes, and then out of what is left with more behind, is taking them out of all at once.
use embed_beetroot_hw_2_7_pr.Prelude.{
  ℕ, zero, suc, ◌<◌, ◌≡◌, refl, sym, ap, ◌∙◌, arith, List, [], ◌∷◌, ◌++◌, length, length-drop, drop,
  drop-append,
}
use embed_beetroot_hw_2_7_pr.Packet.Reassembly.{Frame, wait, again, found, scan}
use embed_beetroot_hw_2_7_pr.Packet.Reassembly.Prefix.{scan-wait, scan-again, scan-found}
use embed_beetroot_hw_2_7_pr.Packet.Reassembly.Extract.{
  is_wait, is_again, is_found, scan_cases, again_shrinks,
}

-- The frames that the bytes hold, and the bytes that are left. Each round drops bytes.
abbrev pub prepend : List Frame → List Frame × List ℕ → List Frame × List ℕ
prepend fs (gs, left) = (fs ++ gs, left)

collect : ℕ → List ℕ → List Frame × List ℕ
collect zero bytes = ([], bytes)
collect (suc fuel) bytes = elim (scan bytes) [
  | wait left ↦ ([], left)
  | again left ↦ collect fuel left
  | found frame left n ↦ prepend (frame ∷ []) (collect fuel (drop n left))
]

pub frames_in : List ℕ → List Frame × List ℕ
unfolding collect
frames_in bytes = collect (suc (length bytes)) bytes

module _ (fuel : ℕ) (bytes : List ℕ) where
  collect-wait : (left : List ℕ) → scan bytes ≡ wait left → collect (suc fuel) bytes ≡ ([], left)
  unfolding collect
  collect-wait left e = rw (e, collect) refl

  collect-again :
      (left : List ℕ) → scan bytes ≡ again left → collect (suc fuel) bytes ≡ collect fuel left
  unfolding collect
  collect-again left e = rw (e, collect) refl

  collect-found :
      (frame : Frame) (left : List ℕ) (n : ℕ)
      → scan bytes ≡ found frame left n
      → collect (suc fuel) bytes ≡ prepend (frame ∷ []) (collect fuel (drop n left))
  unfolding collect
  collect-found frame left n e = rw (e, collect) refl

pub found_shrinks :
    (bytes left : List ℕ) (frame : Frame) (n : ℕ)
    → scan bytes ≡ found frame left n
    → length (drop n left) < length bytes
found_shrinks bytes left frame n e =
    omega (arith, scan-found bytes [] left frame n e, length-drop n left)

collect-fuel :
    (f g : ℕ) (bytes : List ℕ)
    → length bytes < f
    → length bytes < g
    → collect f bytes ≡ collect g bytes
collect-fuel zero g bytes hf hg = absurd (omega arith)
collect-fuel (suc f) zero bytes hf hg = absurd (omega arith)
collect-fuel (suc f) (suc g) bytes hf hg = elim (scan_cases (scan bytes)) [
  | is_wait left e ↦ collect-wait f bytes left e ∙ sym (collect-wait g bytes left e)
  | is_again left e ↦
      let shorter = again_shrinks bytes left e in
      collect-again f bytes left e
      ∙ collect-fuel f g left (omega arith) (omega arith)
      ∙ sym (collect-again g bytes left e)
  | is_found frame left n e ↦
      let shorter = found_shrinks bytes left frame n e in
      collect-found f bytes frame left n e
      ∙ ap (prepend (frame ∷ [])) (collect-fuel f g (drop n left) (omega arith) (omega arith))
      ∙ sym (collect-found g bytes frame left n e)
]

module _ (bytes : List ℕ) where
  pub frames_in-wait : (left : List ℕ) → scan bytes ≡ wait left → frames_in bytes ≡ ([], left)
  unfolding frames_in
  frames_in-wait left e = collect-wait (length bytes) bytes left e

  pub frames_in-again : (left : List ℕ) → scan bytes ≡ again left → frames_in bytes ≡ frames_in left
  unfolding frames_in
  frames_in-again left e =
      collect-again (length bytes) bytes left e
      ∙ collect-fuel (length bytes) (suc (length left)) left (again_shrinks bytes left e)
          (omega arith)

  pub frames_in-found :
      (frame : Frame) (left : List ℕ) (n : ℕ)
      → scan bytes ≡ found frame left n
      → frames_in bytes ≡ prepend (frame ∷ []) (frames_in (drop n left))
  unfolding frames_in
  frames_in-found frame left n e =
      collect-found (length bytes) bytes frame left n e
      ∙ ap (prepend (frame ∷ [])) (
          collect-fuel (length bytes) (suc (length (drop n left))) (drop n left)
            (found_shrinks bytes left frame n e) (omega arith))

-- Bytes that scan alike hold the same frames.
frames_in-scan : (xs ys : List ℕ) → scan xs ≡ scan ys → frames_in xs ≡ frames_in ys
frames_in-scan xs ys same = elim (scan_cases (scan ys)) [
  | is_wait left e ↦ frames_in-wait xs left (same ∙ e) ∙ sym (frames_in-wait ys left e)
  | is_again left e ↦ frames_in-again xs left (same ∙ e) ∙ sym (frames_in-again ys left e)
  | is_found frame left n e ↦
      frames_in-found xs frame left n (same ∙ e) ∙ sym (frames_in-found ys frame left n e)
]

-- First some bytes and then the rest, or all at once.
abbrev pub then_more : List ℕ → List Frame × List ℕ → List Frame × List ℕ
then_more more (fs, left) = prepend fs (frames_in (left ++ more))

frames_in-append_below :
    (k : ℕ) (bytes more : List ℕ)
    → length bytes < k
    → frames_in (bytes ++ more) ≡ then_more more (frames_in bytes)
frames_in-append_below zero bytes more h = absurd (omega arith)
frames_in-append_below (suc k) bytes more h = elim (scan_cases (scan bytes)) [
  | is_wait left e ↦
      frames_in-scan (bytes ++ more) (left ++ more) (scan-wait bytes more left e)
      ∙ ap (then_more more) (sym (frames_in-wait bytes left e))
  | is_again left e ↦
      frames_in-again (bytes ++ more) (left ++ more) (scan-again bytes more left e).0
      ∙ frames_in-append_below k left more (omega (arith, again_shrinks bytes left e))
      ∙ ap (then_more more) (sym (frames_in-again bytes left e))
  | is_found frame left n e ↦
      let (same, _, _, fits) = scan-found bytes more left frame n e in
      frames_in-found (bytes ++ more) frame (left ++ more) n same
      ∙ ap (λ l. prepend (frame ∷ []) (frames_in l)) (drop-append n left more fits)
      ∙ ap (prepend (frame ∷ [])) (
          frames_in-append_below k (drop n left) more
            (omega (arith, found_shrinks bytes left frame n e)))
      ∙ ap (then_more more) (sym (frames_in-found bytes frame left n e))
]

pub frames_in-append :
    (bytes more : List ℕ) → frames_in (bytes ++ more) ≡ then_more more (frames_in bytes)
frames_in-append bytes more = frames_in-append_below (suc (length bytes)) bytes more (omega arith)
