-- ===== src/Auth/Key.antt =====
-- The session key's place in the lookup table.
use embed_beetroot_hw_2_7_pr.Prelude.{
  ℕ, zero, suc, ltb, leb, lt→ltb, leb→le, ◌+◌, ◌-◌, ◌*◌, ◌%◌, ◌≤◌, ◌<◌, ◌≡◌, ◌≢◌, refl, arith, true,
  false, Bool-cases, inl, inr, List, [], ◌∷◌, ◌++◌, length, take, drop, ok, err, invalid_state,
}
use embed_beetroot_hw_2_7_pr.Session.{Psa, river2_md5}
use embed_beetroot_hw_2_7_pr.Config.{EcoflowConfig, lut_size}
use embed_beetroot_hw_2_7_pr.Auth.{lookup_position, derive_session_key}

-- The seeds whose sixteen bytes lie in the table: a second byte of 0 counts as 256 and is past it.
abbrev pub IsUsable : ℕ → ℕ → Type 0
IsUsable seed0 seed1 = (seed1 ≢ 0) × (seed0 * 16 + (seed1 - 1) * 256 + 16 ≤ lut_size)

outside :
    (seed0 seed1 n : ℕ)
    → n ≡ lut_size
    → seed0 < 256
    → seed1 < 256
    → ¬ IsUsable seed0 seed1
    → n < seed0 * 0x10 + (seed1 + 0x100 - 1) % 0x100 * 0x100 + 16
outside seed0 zero n e h0 h1 unusable = omega arith
outside seed0 (suc k) n e h0 h1 unusable =
    elim (Bool-cases (leb (seed0 * 16 + k * 256 + 16) lut_size)) [
      | inl inside ↦ absurd (
          unusable
            ((omega arith), (omega (arith, leb→le (seed0 * 16 + k * 256 + 16) lut_size inside))))
      | inr past ↦ let far : lut_size < seed0 * 16 + k * 256 + 16 = ground arith in omega arith
    ]

-- With the table of its full size and a seed of two bytes: a usable seed gives the MD5 of the
-- sixteen bytes at its place and of the sixteen random bytes; any other is refused, so that nothing
-- past the table is read.
pub derive_session_key-IsUsable :
    (psa : Psa) (cfg : EcoflowConfig) (seed0 seed1 : ℕ) (srand : List ℕ)
    → length cfg.lookup_table ≡ lut_size
    → seed0 < 256
    → seed1 < 256
    → let key = derive_session_key psa cfg (seed0 ∷ seed1 ∷ []) srand in
      (IsUsable seed0 seed1
        → key
          ≡ ok (
              psa.hash_compute_md5 (
                take 16 (drop (seed0 * 16 + (seed1 - 1) * 256) cfg.lookup_table) ++ take 16 srand)))
      × ((¬ IsUsable seed0 seed1) → key ≡ err invalid_state)
unfolding derive_session_key lookup_position river2_md5
derive_session_key-IsUsable psa cfg seed0 seed1 srand size h0 h1 = (
  (λ usable.
      let place : seed0 * 0x10 + (seed1 + 0x100 - 1) % 0x100 * 0x100
          ≡ seed0 * 16 + (seed1 - 1) * 256 =
        omega (arith, usable) in
      let inside : ltb (length cfg.lookup_table) (seed0 * 16 + (seed1 - 1) * 256 + 16) ≡ false =
        ground arith in
      rw (place, inside) refl),
  (λ unusable.
      let past : ltb (length cfg.lookup_table)
            (seed0 * 0x10 + (seed1 + 0x100 - 1) % 0x100 * 0x100 + 16)
          ≡ true =
        lt→ltb _ _ (outside seed0 seed1 (length cfg.lookup_table) size h0 h1 unusable) in
      rw past refl),
)
