-- ===== src/Auth/Hex.antt =====
-- The digest in hexadecimal, which the last step of the handshake sends.
use embed_beetroot_hw_2_7_pr.Prelude.{
  ℕ, ◌+◌, ◌-◌, ◌*◌, ◌/◌, ◌%◌, ◌<◌, ◌≤◌, ◌≡◌, refl, sym, ap, ap₂, ◌∙◌, arith, Bool-cases, inl, inr,
  ◌⊎◌, List, [], ◌∷◌, ◌++◌, append_assoc, ltb, ltb→lt, if◌then◌else◌, length, length-append,
  overwrite, memcpy-append, IsBytes,
}
use embed_beetroot_hw_2_7_pr.Auth.Run.{hex_digit, hex_loop}

-- `0` to `9` and `A` to `F`, and what they stand for.
abbrev pub IsHexDigit : ℕ → Type 0
IsHexDigit c = ((48 ≤ c) × (c < 58)) ⊎ ((65 ≤ c) × (c < 71))

abbrev pub AreHexDigits : List ℕ → Type 0
AreHexDigits [] = Unit
AreHexDigits (c ∷ cs) = IsHexDigit c × AreHexDigits cs

abbrev pub digit_value : ℕ → ℕ
digit_value c = if ltb c 58 then c - 48 else c - 55

-- The bytes that the digits stand for, two for a byte, the high half first.
abbrev pub from_hex : List ℕ → List ℕ
from_hex [] = []
from_hex (c ∷ []) = []
from_hex (c ∷ d ∷ cs) = (digit_value c * 16 + digit_value d) ∷ from_hex cs

abbrev hex_of : List ℕ → List ℕ
hex_of [] = []
hex_of (b ∷ bytes) = hex_digit (b / 16) ∷ hex_digit (b % 16) ∷ hex_of bytes

digit-IsHexDigit : (d : ℕ) → d < 16 → IsHexDigit (hex_digit d)
unfolding hex_digit
digit-IsHexDigit d h = elim (Bool-cases (ltb d 10)) [
  | inl small ↦ rw small (inl (omega arith, omega (arith, ltb→lt d 10 small)))
  | inr big ↦ rw big (inr (ground arith, omega arith))
]

digit_value-hex_digit : (d : ℕ) → d < 16 → digit_value (hex_digit d) ≡ d
unfolding hex_digit
digit_value-hex_digit d h = ground arith

length-hex_of : (bytes : List ℕ) → length (hex_of bytes) ≡ 2 * length bytes
length-hex_of [] = refl
length-hex_of (b ∷ bytes) = omega (arith, length-hex_of bytes)

hex_of-AreHexDigits : (bytes : List ℕ) → IsBytes bytes → AreHexDigits (hex_of bytes)
hex_of-AreHexDigits [] h = tt
hex_of-AreHexDigits (b ∷ bytes) h = (
  digit-IsHexDigit (b / 16) (omega (arith, h.0)),
  (digit-IsHexDigit (b % 16) (omega arith), hex_of-AreHexDigits bytes h.1),
)

pub AreHexDigits-IsBytes : (cs : List ℕ) → AreHexDigits cs → IsBytes cs
AreHexDigits-IsBytes [] h = tt
AreHexDigits-IsBytes (c ∷ cs) (inl low, h) = (omega (arith, low.1), AreHexDigits-IsBytes cs h)
AreHexDigits-IsBytes (c ∷ cs) (inr high, h) = (omega (arith, high.1), AreHexDigits-IsBytes cs h)

from_hex-hex_of : (bytes : List ℕ) → IsBytes bytes → from_hex (hex_of bytes) ≡ bytes
from_hex-hex_of [] h = refl
from_hex-hex_of (b ∷ bytes) h =
    let high = digit_value-hex_digit (b / 16) (omega (arith, h.0)) in
    let low = digit_value-hex_digit (b % 16) (omega arith) in
    ap₂ (◌∷◌) (omega (arith, high, low)) (from_hex-hex_of bytes h.1)

length-overwrite : (xs ys : List ℕ) → length (overwrite xs ys) ≡ length xs
length-overwrite [] ys = refl
length-overwrite (x ∷ xs) [] = refl
length-overwrite (x ∷ xs) (y ∷ ys) = omega (arith, length-overwrite xs ys)

-- The NUL that a round writes behind its digits is gone after the next.
hex_loop_lem :
    (bytes : List ℕ) (i : ℕ) (front back : List ℕ)
    → length front ≡ i * 2
    → length back ≡ 2 * length bytes
    → hex_loop bytes i (front ++ back) ≡ front ++ hex_of bytes
unfolding hex_loop
hex_loop_lem [] i front [] hf hb = refl
hex_loop_lem [] i front (x ∷ back) hf hb = absurd (omega arith)
hex_loop_lem (b ∷ bytes) i front [] hf hb = absurd (omega arith)
hex_loop_lem (b ∷ bytes) i front (x ∷ []) hf hb = absurd (omega arith)
hex_loop_lem (b ∷ bytes) i front (x ∷ y ∷ back) hf hb =
    let high = hex_digit (b / 16) in
    let low = hex_digit (b % 16) in
    let digits = high ∷ low ∷ [] in
    let rest = overwrite back (0 ∷ []) in
    ap (hex_loop bytes (i + 1)) (
      memcpy-append front (x ∷ y ∷ back) (high ∷ low ∷ 0 ∷ []) (i * 2) (sym hf)
      ∙ sym (append_assoc front digits rest))
    ∙ hex_loop_lem bytes (i + 1) (front ++ digits) rest (omega (arith, length-append front digits))
        (omega (arith, length-overwrite back (0 ∷ [])))
    ∙ append_assoc front digits (hex_of bytes)

-- Over an array of two places for each byte of the digest, whatever it holds: the loop fills all
-- of it with upper-case hexadecimal digits, and read back two by two they give the digest.
pub hex_loop-from_hex :
    (digest out : List ℕ)
    → IsBytes digest
    → length out ≡ 2 * length digest
    → (let payload = hex_loop digest 0 out in
        AreHexDigits payload × (length payload ≡ length out) × (from_hex payload ≡ digest))
hex_loop-from_hex digest out hd size =
    let same = hex_loop_lem digest 0 [] out refl size in
    rw same (
      hex_of-AreHexDigits digest hd,
      omega (arith, length-hex_of digest),
      from_hex-hex_of digest hd,
    )
