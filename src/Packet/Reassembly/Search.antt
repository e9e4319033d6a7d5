-- ===== src/Packet/Reassembly/Search.antt =====
-- The search for the prefix 0x5A5A, with more bytes behind.
use embed_beetroot_hw_2_7_pr.Prelude.{
  ℕ, zero, suc, ◌+◌, ◌≤◌, ◌≡◌, refl, ap, arith, Option, none, some, List, [], ◌∷◌, ◌++◌, length,
  drop,
}
use mathlib.Core.Option
use embed_beetroot_hw_2_7_pr.Packet.Reassembly.{find_prefix}

-- A prefix that is found lies inside, and begins what is left when all before it is dropped.
pub find_prefix_inside :
    (bytes : List ℕ) (start : ℕ)
    → find_prefix bytes ≡ some start
    → (start + 2 ≤ length bytes) × (find_prefix (drop start bytes) ≡ some 0)
unfolding find_prefix
find_prefix_inside [] start h = cc
find_prefix_inside (x ∷ []) start h = cc
find_prefix_inside (x ∷ y ∷ rest) zero h = (omega arith, h)
find_prefix_inside (x ∷ y ∷ rest) (suc start) h =
    ground (arith, find_prefix_inside (y ∷ rest) start)

-- It is found again, at the same place, when bytes are added behind.
pub find_prefix-append :
    (bytes more : List ℕ) (start : ℕ)
    → find_prefix bytes ≡ some start
    → find_prefix (bytes ++ more) ≡ some start
unfolding find_prefix
find_prefix-append [] more start h = cc
find_prefix-append (x ∷ []) more start h = cc
find_prefix-append (x ∷ y ∷ rest) more start h = grind (arith, find_prefix-append (y ∷ rest) more)

-- Where there is none, only the last byte can be the beginning of one.
unfoldable pub shifted : ℕ → Option ℕ → Option ℕ
shifted n none = none
shifted n (some i) = some (n + i)

shifted-zero : (o : Option ℕ) → shifted 0 o ≡ o
unfolding shifted
shifted-zero none = refl
shifted-zero (some i) = ap some (omega arith)

shifted-suc : (n : ℕ) (o : Option ℕ) → Option.map suc (shifted n o) ≡ shifted (suc n) o
unfolding shifted
shifted-suc n none = refl
shifted-suc n (some i) = ap some (omega arith)

pub find_prefix-append_none :
    (bytes more : List ℕ) (n : ℕ)
    → find_prefix bytes ≡ none
    → length bytes ≡ suc n
    → find_prefix (bytes ++ more) ≡ shifted n (find_prefix (drop n bytes ++ more))
unfolding find_prefix
find_prefix-append_none [] more n h l = absurd (omega arith)
find_prefix-append_none (x ∷ []) more n h l =
    let e : n ≡ 0 = omega arith in rw (e, shifted-zero) refl
find_prefix-append_none (x ∷ y ∷ rest) more zero h l = absurd (omega arith)
find_prefix-append_none (x ∷ y ∷ rest) more (suc n) h l = ground (
  arith,
  find_prefix-append_none (y ∷ rest) more n,
  shifted-suc n (find_prefix (drop n (y ∷ rest) ++ more)),
)
