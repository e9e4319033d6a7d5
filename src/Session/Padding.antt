-- ===== src/Session/Padding.antt =====
-- The lenient removal of padding in `river2_session_decrypt`: the loop finds PKCS7 padding exactly
-- when it is there.
use embed_beetroot_hw_2_7_pr.Prelude.{
  ℕ, zero, suc, ◌+◌, ◌-◌, ◌≤◌, ◌<◌, ◌≡◌, ◌≢◌, inl, inr, refl, sym, ap, ◌∙◌, arith, subst, true,
  ◌&&◌, Bool-cases, List, [], ◌∷◌, ◌++◌, leb, length, length-append, length-replicate, length-drop,
  get_or, take, drop, replicate, take-append, take-append-drop, take-append_length, get_or-append,
  get_or-append_right,
}
use embed_beetroot_hw_2_7_pr.Session.{pad_matches, valid_pad, unpadded_length}

-- What stands without its padding: a number of up to 16, written that many times at the end.
pub data Unpads : List ℕ → List ℕ → Type 0 where
  padded : (body : List ℕ) (p : ℕ) → 1 ≤ p → p ≤ 16 → Unpads (body ++ replicate p p) body
  bare :
      (plain : List ℕ)
      → ((body : List ℕ) (p : ℕ) → 1 ≤ p → p ≤ 16 → plain ≢ body ++ replicate p p)
      → Unpads plain plain

pad_matches-all :
    (out : List ℕ) (n pad left i : ℕ)
    → pad_matches out n pad left i ≡ true
    → (j : ℕ) → j < left
    → get_or out (n - 1 - (i + j)) 0 ≡ pad
unfolding pad_matches
pad_matches-all out n pad zero i h j low = absurd (omega arith)
pad_matches-all out n pad (suc left) i h zero low =
    let at : n - 1 - (i + 0) ≡ n - 1 - i = omega arith in rw at (ground arith)
pad_matches-all out n pad (suc left) i h (suc j) low =
    let at : n - 1 - (i + suc j) ≡ n - 1 - (i + 1 + j) = omega arith in
    rw at (pad_matches-all out n pad left (i + 1) (ground arith) j (omega arith))

pad_matches-holds :
    (out : List ℕ) (n pad left i : ℕ)
    → ((j : ℕ) → j < left → get_or out (n - 1 - (i + j)) 0 ≡ pad)
    → pad_matches out n pad left i ≡ true
unfolding pad_matches
pad_matches-holds out n pad zero i h = refl
pad_matches-holds out n pad (suc left) i h =
    let at : n - 1 - (i + 0) ≡ n - 1 - i = omega arith in
    let this : get_or out (n - 1 - i) 0 ≡ pad =
      subst (λ k. get_or out k 0 ≡ pad) at (h 0 (omega arith)) in
    let rest = pad_matches-holds out n pad left (i + 1) (λ j low.
      let later : n - 1 - (i + suc j) ≡ n - 1 - (i + 1 + j) = omega arith in
      subst (λ k. get_or out k 0 ≡ pad) later (h (suc j) (omega arith))) in
    ground arith

all_same :
    (v : ℕ) (xs : List ℕ)
    → ((k : ℕ) → k < length xs → get_or xs k 0 ≡ v)
    → xs ≡ replicate (length xs) v
all_same v [] h = refl
all_same v (x ∷ xs) h =
    let head : x ≡ v = h 0 (omega arith) in
    let tail = all_same v xs (λ k low. h (suc k) (omega arith)) in
    ap (λ l. x ∷ l) tail ∙ ap (λ y. y ∷ replicate (length xs) v) head

get_or-replicate : (n v k : ℕ) → k < n → get_or (replicate n v) k 0 ≡ v
get_or-replicate zero v k h = absurd (omega arith)
get_or-replicate (suc n) v zero h = refl
get_or-replicate (suc n) v (suc k) h = get_or-replicate n v k (omega arith)

get_or-drop : (m k : ℕ) (xs : List ℕ) → get_or (drop m xs) k 0 ≡ get_or xs (m + k) 0
get_or-drop zero k xs = let e : 0 + k ≡ k = omega arith in rw e refl
get_or-drop (suc m) k [] = refl
get_or-drop (suc m) k (x ∷ xs) =
    let e : suc m + k ≡ suc (m + k) = omega arith in rw e (get_or-drop m k xs)

-- The loop has found a byte `pad` in each of the last places.
matches-Unpads :
    (plain rest : List ℕ) (n pad : ℕ)
    → n ≡ length plain
    → 1 ≤ pad
    → pad ≤ 16
    → pad ≤ n
    → pad_matches (plain ++ rest) n pad pad 0 ≡ true
    → Unpads plain (take (n - pad) (plain ++ rest))
matches-Unpads plain rest n pad en low high short h =
    let body = take (n - pad) plain in
    let tail = drop (n - pad) plain in
    let size : length tail ≡ pad = omega (arith, length-drop (n - pad) plain) in
    let each : (k : ℕ) → k < length tail → get_or tail k 0 ≡ pad = λ k below.
      let at : n - pad + k ≡ n - 1 - (0 + (pad - 1 - k)) = omega arith in
      get_or-drop (n - pad) k plain
      ∙ sym (get_or-append plain rest (n - pad + k) 0 (omega arith))
      ∙ ap (λ i. get_or (plain ++ rest) i 0) at
      ∙ pad_matches-all (plain ++ rest) n pad pad 0 h (pad - 1 - k) (omega arith) in
    let same : tail ≡ replicate pad pad = all_same pad tail each ∙ ap (λ m. replicate m pad) size in
    let whole : body ++ replicate pad pad ≡ plain =
      ap (λ t. body ++ t) (sym same) ∙ take-append-drop (n - pad) plain in
    let front : body ≡ take (n - pad) (plain ++ rest) =
      sym (take-append (n - pad) plain rest (omega arith)) in
    subst (λ l. Unpads l (take (n - pad) (plain ++ rest))) whole
      (subst (Unpads (body ++ replicate pad pad)) front (padded body pad low high))

padded_places :
    (body rest : List ℕ) (n p j : ℕ)
    → n ≡ length body + p
    → j < p
    → get_or ((body ++ replicate p p) ++ rest) (n - 1 - (0 + j)) 0 ≡ p
padded_places body rest n p j en below =
    get_or-append (body ++ replicate p p) rest (n - 1 - (0 + j)) 0
      (omega (arith, length-append body (replicate p p), length-replicate p p))
    ∙ get_or-append_right body (replicate p p) (n - 1 - (0 + j)) (p - 1 - j) 0 (omega arith)
    ∙ get_or-replicate p p (p - 1 - j) (omega arith)

padded_last :
    (body rest : List ℕ) (n p : ℕ)
    → 1 ≤ p
    → n ≡ length body + p
    → get_or ((body ++ replicate p p) ++ rest) (n - 1) 0 ≡ p
padded_last body rest n p low en =
    ap (λ i. get_or ((body ++ replicate p p) ++ rest) i 0) (omega arith)
    ∙ padded_places body rest n p 0 en (omega arith)

-- Bytes that end with padding pass the tests.
padded-valid_pad :
    (body rest : List ℕ) (n p : ℕ)
    → 1 ≤ p
    → p ≤ 16
    → n ≡ length body + p
    → valid_pad ((body ++ replicate p p) ++ rest) n ≡ true
unfolding valid_pad
padded-valid_pad body rest n p low high en =
    let last = padded_last body rest n p low en in
    let loop =
      pad_matches-holds ((body ++ replicate p p) ++ rest) n p p 0
        (λ j below. padded_places body rest n p j en below) in
    rw last (ground arith)

-- What was padded is taken off again.
pub unpadded_length-padded :
    (body rest : List ℕ) (n p : ℕ)
    → 1 ≤ p
    → p ≤ 16
    → n ≡ length body + p
    → unpadded_length ((body ++ replicate p p) ++ rest) n ≡ length body
unfolding unpadded_length
unpadded_length-padded body rest n p low high en =
    rw (padded-valid_pad body rest n p low high en, padded_last body rest n p low en) (omega arith)

valid-Unpads :
    (plain rest : List ℕ) (n : ℕ)
    → n ≡ length plain
    → valid_pad (plain ++ rest) n ≡ true
    → Unpads plain (take (n - get_or (plain ++ rest) (n - 1) 0) (plain ++ rest))
unfolding valid_pad
valid-Unpads plain rest n en valid =
    let pad = get_or (plain ++ rest) (n - 1) 0 in
    elim (Bool-cases (leb 1 pad && leb pad 16 && leb pad n)) [
      | inl in_range ↦
          matches-Unpads plain rest n pad en (ground arith) (ground arith) (ground arith)
            (sym (rw in_range refl) ∙ valid)
      | inr out_of_range ↦ ground arith
    ]

-- The caller is told the length of the bytes without their padding, whatever stands behind them.
pub unpadded_length-Unpads :
    (plain rest : List ℕ) (n : ℕ)
    → n ≡ length plain
    → Unpads plain (take (unpadded_length (plain ++ rest) n) (plain ++ rest))
unfolding unpadded_length
unpadded_length-Unpads plain rest n en = elim (Bool-cases (valid_pad (plain ++ rest) n)) [
  | inl valid ↦ rw valid (valid-Unpads plain rest n en valid)
  | inr invalid ↦ rw invalid (
      subst (Unpads plain) (sym (take-append_length n plain rest en)) (
        bare plain (λ body p low high e. cc (
          sym invalid
          ∙ ap (λ l. valid_pad (l ++ rest) n) e
          ∙ padded-valid_pad body rest n p low high (
              omega (
                arith,
                en,
                ap length e,
                length-append body (replicate p p),
                length-replicate p p,
              ))))))
]
