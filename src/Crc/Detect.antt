-- ===== src/Crc/Detect.antt =====
-- What the CRC16 protects: its register is injective, so a corruption that is confined to two
-- neighbouring bytes always shows, and a message that ends in its own CRC leaves the register 0.
use embed_beetroot_hw_2_7_pr.Prelude.{
  ℕ, zero, suc, ◌+◌, ◌*◌, ◌/◌, ◌%◌, ◌^◌, ◌<◌, bit_xor, ◌≡◌, refl, sym, ap, ap₂, ◌≢◌, ◌∙◌, arith,
  List, [], ◌∷◌, ◌++◌, IsBytes, IsBytes-append, ◌↔◌,
}
use embed_beetroot_hw_2_7_pr.Prelude.Bits.{xor-lt, xor_self, xor_comm, xor_assoc, xor-injective}
use embed_beetroot_hw_2_7_pr.Crc.{crc16_round, rounds, crc16}
use embed_beetroot_hw_2_7_pr.Crc.Linear.{
  crc16_round_lem, crc16_round-lt, rounds16-lt, rounds16-xor, rounds16_shift, xor_of_bytes,
}
use embed_beetroot_hw_2_7_pr.Crc.Reference.{
  register16, register16-append, register16-lt, crc16-register,
}

xor-eq-zero : (a b : ℕ) → bit_xor a b ≡ 0 → a ≡ b
xor-eq-zero a b e = sym (xor-injective a b a (e ∙ sym (xor_self a)))

-- Only 0 goes to 0: the polynomial's top bit marks an odd word.
round_kernel : (x : ℕ) → x < 2 ^ 16 → crc16_round x ≡ 0 → x ≡ 0
round_kernel x h e =
    let halves = xor-eq-zero (x / 2) (x % 2 * 0xA001) (sym (crc16_round_lem x h) ∙ e) in omega arith

rounds_kernel : (n x : ℕ) → x < 2 ^ 16 → rounds crc16_round n x ≡ 0 → x ≡ 0
unfolding rounds
rounds_kernel zero x h e = e
rounds_kernel (suc n) x h e =
    round_kernel x h (rounds_kernel n (crc16_round x) (crc16_round-lt x) e)

rounds16-injective :
    (n x y : ℕ) → x < 2 ^ 16 → y < 2 ^ 16 → rounds crc16_round n x ≡ rounds crc16_round n y → x ≡ y
rounds16-injective n x y hx hy e = xor-eq-zero x y (
    rounds_kernel n (bit_xor x y) (xor-lt 16 x y hx hy)
      (rounds16-xor n x y hx hy ∙ rw e (xor_self _)))

-- Different registers stay different over the same bytes.
register16-injective :
    (bytes : List ℕ) (x y : ℕ)
    → x < 2 ^ 16
    → y < 2 ^ 16
    → IsBytes bytes
    → register16 x bytes ≡ register16 y bytes
    → x ≡ y
register16-injective [] x y hx hy bs e = e
register16-injective (b ∷ bytes) x y hx hy bs e =
    let hb : b < 2 ^ 16 = omega (arith, bs.0) in
    let wx = xor-lt 16 x b hx hb in
    let wy = xor-lt 16 y b hy hb in
    let same =
      rounds16-injective 8 _ _ wx wy
        (register16-injective bytes _ _ (rounds16-lt 8 _ wx) (rounds16-lt 8 _ wy) bs.1 e) in
    xor-injective b x y (xor_comm b x ∙ same ∙ xor_comm y b)

-- Two bytes are taken as one word of sixteen bits.
rounds-pair :
    (crc a b : ℕ)
    → crc < 2 ^ 16
    → a < 256
    → b < 256
    → register16 crc (a ∷ b ∷ [])
      ≡ rounds crc16_round 8 (rounds crc16_round 8 (bit_xor crc (b * 256 + a)))
unfolding rounds
rounds-pair crc a b h ha hb =
    let wide : b * 2 ^ 8 < 2 ^ 16 = omega arith in
    let mixed = xor-lt 16 crc a h (omega arith) in
    let apart : bit_xor crc (b * 256 + a) ≡ bit_xor (bit_xor crc a) (b * 2 ^ 8) =
      ap (bit_xor crc) (sym (xor_of_bytes b a ha) ∙ xor_comm (b * 2 ^ 8) a)
      ∙ sym (xor_assoc crc a (b * 2 ^ 8)) in
    rw (apart, rounds16-xor 8 (bit_xor crc a) (b * 2 ^ 8) mixed wide, rounds16_shift 8 b wide) refl

pair-injective :
    (crc a b a' b' : ℕ)
    → crc < 2 ^ 16
    → a < 256
    → b < 256
    → a' < 256
    → b' < 256
    → register16 crc (a ∷ b ∷ []) ≡ register16 crc (a' ∷ b' ∷ [])
    → (a ≡ a') × (b ≡ b')
pair-injective crc a b a' b' h ha hb ha' hb' e =
    let word : (x y : ℕ) → x < 256 → y < 256 → bit_xor crc (y * 256 + x) < 2 ^ 16 =
      λ x y hx hy. xor-lt 16 crc _ h (omega arith) in
    let outer =
      rounds16-injective 8 _ _ (rounds16-lt 8 _ (word a b ha hb))
        (rounds16-lt 8 _ (word a' b' ha' hb'))
        (sym (rounds-pair crc a b h ha hb) ∙ e ∙ rounds-pair crc a' b' h ha' hb') in
    let inner = rounds16-injective 8 _ _ (word a b ha hb) (word a' b' ha' hb') outer in
    let same = xor-injective crc (b * 256 + a) (b' * 256 + a') inner in omega arith

crc16-injective_pair :
    (before after : List ℕ) (a b a' b' : ℕ)
    → IsBytes before
    → IsBytes (a ∷ b ∷ after)
    → IsBytes (a' ∷ b' ∷ after)
    → crc16 (before ++ a ∷ b ∷ after) ≡ crc16 (before ++ a' ∷ b' ∷ after)
    → (a ≡ a') × (b ≡ b')
crc16-injective_pair before after a b a' b' hx hy hz e =
    pair-injective start a b a' b' start_lt hy.0 hy.1.0 hz.0 hz.1.0 (
      register16-injective after _ _ (tail_lt a b hy.0 hy.1.0) (tail_lt a' b' hz.0 hz.1.0) hy.1.1
        same)
  where
    start : ℕ
    start = register16 0 before

    start_lt : start < 2 ^ 16
    start_lt = register16-lt before 0 (omega arith) hx

    tail_lt : (x y : ℕ) → x < 256 → y < 256 → register16 start (x ∷ y ∷ []) < 2 ^ 16
    tail_lt x y p q = register16-lt (x ∷ y ∷ []) start start_lt (p, (q, tt))

    whole :
        (x y : ℕ)
        → IsBytes (x ∷ y ∷ after)
        → crc16 (before ++ x ∷ y ∷ after) ≡ register16 (register16 start (x ∷ y ∷ [])) after
    whole x y bs =
        crc16-register _ (IsBytes-append before _ hx bs)
        ∙ register16-append before (x ∷ y ∷ after) 0

    same :
        register16 (register16 start (a ∷ b ∷ [])) after
        ≡ register16 (register16 start (a' ∷ b' ∷ [])) after
    same = sym (whole a b hy) ∙ e ∙ whole a' b' hz

-- Two messages of bytes that differ in two neighbouring bytes, or in one of them, and nowhere else
-- have different CRC16s.
pub crc16_burst :
    (before after : List ℕ) (a b a' b' : ℕ)
    → IsBytes before
    → IsBytes (a ∷ b ∷ after)
    → IsBytes (a' ∷ b' ∷ after)
    → a ∷ b ∷ [] ≢ a' ∷ b' ∷ []
    → crc16 (before ++ a ∷ b ∷ after) ≢ crc16 (before ++ a' ∷ b' ∷ after)
crc16_burst before after a b a' b' hx hy hz differ e =
    let (same_a, same_b) = crc16-injective_pair before after a b a' b' hx hy hz e in
    differ (ap₂ (λ x y. x ∷ y ∷ []) same_a same_b)

-- A message of bytes followed by two bytes has CRC16 0 exactly when the two are the message's own
-- CRC16, low byte first.
pub crc16_residue :
    (bytes : List ℕ) (lo hi : ℕ)
    → IsBytes bytes
    → lo < 256
    → hi < 256
    → (crc16 (bytes ++ lo ∷ hi ∷ []) ≡ 0) ↔ (crc16 bytes ≡ hi * 256 + lo)
crc16_residue bytes lo hi bs hl hh = (
  (λ e. rw (crc16-register bytes bs) (
      xor-eq-zero _ _
        (rounds_kernel 8 _ word (rounds_kernel 8 _ (rounds16-lt 8 _ word) (sym whole ∙ e))))),
  (λ e. whole ∙ (rw (← crc16-register bytes bs, e, xor_self (hi * 256 + lo)) zeros)),
)
  where
    start_lt : register16 0 bytes < 2 ^ 16
    start_lt = register16-lt bytes 0 (omega arith) bs

    word : bit_xor (register16 0 bytes) (hi * 256 + lo) < 2 ^ 16
    word = xor-lt 16 _ _ start_lt (omega arith)

    whole :
        crc16 (bytes ++ lo ∷ hi ∷ [])
        ≡ rounds crc16_round 8 (rounds crc16_round 8 (bit_xor (register16 0 bytes) (hi * 256 + lo)))
    whole =
        crc16-register _ (IsBytes-append bytes _ bs (hl, (hh, tt)))
        ∙ register16-append bytes (lo ∷ hi ∷ []) 0
        ∙ rounds-pair _ lo hi start_lt hl hh

    zeros : rounds crc16_round 8 (rounds crc16_round 8 0) ≡ 0
    zeros = unfold rounds crc16_round in refl
