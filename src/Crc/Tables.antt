-- ===== src/Crc/Tables.antt =====
-- What the tables hold, and that the caching of them cannot be seen in a result.
use embed_beetroot_hw_2_7_pr.Prelude.{
  ℕ, zero, suc, ◌+◌, ◌<◌, ◌≤◌, ◌%◌, ◌^◌, ◌≡◌, ◌≢◌, refl, ap, ◌∙◌, true, List, [], ◌∷◌, arith,
  length, get_or, set, length-set, length-replicate, Bool-cases, inl, inr,
}
use embed_beetroot_hw_2_7_pr.Crc.{
  CrcState, crc_start, crc8_round, crc16_round, rounds, fill_tables, build_tables, ensure_tables,
}

get_or-set_self : (xs : List ℕ) (i v d : ℕ) → i < length xs → get_or (set xs i v) i d ≡ v
get_or-set_self [] i v d h = elim h [ ]
get_or-set_self (x ∷ xs) zero v d h = refl
get_or-set_self (x ∷ xs) (suc i) v d h = get_or-set_self xs i v d (omega arith)

get_or-set_ne : (xs : List ℕ) (i j v d : ℕ) → i ≢ j → get_or (set xs i v) j d ≡ get_or xs j d
get_or-set_ne [] i j v d ne = refl
get_or-set_ne (x ∷ xs) zero zero v d ne = absurd (ne refl)
get_or-set_ne (x ∷ xs) zero (suc j) v d ne = refl
get_or-set_ne (x ∷ xs) (suc i) zero v d ne = refl
get_or-set_ne (x ∷ xs) (suc i) (suc j) v d ne = get_or-set_ne xs i j v d (λ e. ne (ap suc e))

-- The loop writes the entries from `i` on and keeps those below `i`.
record Filled (i left : ℕ) (s t : CrcState) : Type 0 where
  same8 : length t.crc8_table ≡ length s.crc8_table
  same16 : length t.crc16_table ≡ length s.crc16_table
  below8 : (j : ℕ) → j < i → get_or t.crc8_table j 0 ≡ get_or s.crc8_table j 0
  below16 : (j : ℕ) → j < i → get_or t.crc16_table j 0 ≡ get_or s.crc16_table j 0
  new8 : (j : ℕ) → i ≤ j → j < i + left → get_or t.crc8_table j 0 ≡ rounds crc8_round 8 (j % 2 ^ 8)
  new16 :
      (j : ℕ) → i ≤ j → j < i + left → get_or t.crc16_table j 0 ≡ rounds crc16_round 8 (j % 2 ^ 16)

abbrev put : ℕ → CrcState → CrcState
put i s = record s {
  crc8_table = set s.crc8_table i (rounds crc8_round 8 (i % 2 ^ 8));
  crc16_table = set s.crc16_table i (rounds crc16_round 8 (i % 2 ^ 16));
}

Filled-put :
    (left i : ℕ) (s t : CrcState)
    → i < length s.crc8_table
    → i < length s.crc16_table
    → Filled (i + 1) left (put i s) t
    → Filled i (suc left) s t
Filled-put left i s t h8 h16 rest = record {
  same8 = rest.same8 ∙ length-set s.crc8_table i _;
  same16 = rest.same16 ∙ length-set s.crc16_table i _;
  below8 = λ j p. rest.below8 j (omega arith) ∙ get_or-set_ne s.crc8_table i j _ 0 (omega arith);
  below16 = λ j p. rest.below16 j (omega arith) ∙ get_or-set_ne s.crc16_table i j _ 0 (omega arith);
  new8 = λ j p q. ground (
    arith,
    rest.new8 j,
    rest.below8 j,
    get_or-set_self s.crc8_table i (rounds crc8_round 8 (i % 2 ^ 8)) 0 h8,
  );
  new16 = λ j p q. ground (
    arith,
    rest.new16 j,
    rest.below16 j,
    get_or-set_self s.crc16_table i (rounds crc16_round 8 (i % 2 ^ 16)) 0 h16,
  );
}

fill_tables-Filled :
    (left i : ℕ) (s : CrcState)
    → i + left ≤ length s.crc8_table
    → i + left ≤ length s.crc16_table
    → Filled i left s (fill_tables left i s)
unfolding fill_tables
fill_tables-Filled zero i s h8 h16 = record {
  same8 = refl;
  same16 = refl;
  below8 = λ j p. refl;
  below16 = λ j p. refl;
  new8 = λ j p q. absurd (omega arith);
  new16 = λ j p q. absurd (omega arith);
}
fill_tables-Filled (suc left) i s h8 h16 =
    let rest =
      fill_tables-Filled left (i + 1) (put i s) (rw length-set (omega arith))
        (rw length-set (omega arith)) in
    Filled-put left i s _ (omega arith) (omega arith) rest

-- What every call leaves behind: tables that are built, and right at each byte.
pub record IsBuilt (s : CrcState) : Type 0 where
  pub size8 : length s.crc8_table ≡ 256
  pub size16 : length s.crc16_table ≡ 256
  pub flag : s.tables_built ≡ true
  pub entry8 : (i : ℕ) → i < 256 → get_or s.crc8_table i 0 ≡ rounds crc8_round 8 i
  pub entry16 : (i : ℕ) → i < 256 → get_or s.crc16_table i 0 ≡ rounds crc16_round 8 i

-- The states that calls can find: cleared arrays of the declared size, or built tables.
pub record IsValid (s : CrcState) : Type 0 where
  pub size8 : length s.crc8_table ≡ 256
  pub size16 : length s.crc16_table ≡ 256
  pub once_built : s.tables_built ≡ true → IsBuilt s

build_tables-IsBuilt : (s : CrcState) → IsValid s → IsBuilt (build_tables s)
unfolding build_tables
build_tables-IsBuilt s v =
    let filled = fill_tables-Filled 256 0 s (omega arith) (omega arith) in
    record {
      size8 = filled.same8 ∙ v.size8;
      size16 = filled.same16 ∙ v.size16;
      flag = refl;
      entry8 =
          λ i p. filled.new8 i (omega arith) (omega arith) ∙ ap (rounds crc8_round 8) (omega arith);
      entry16 = λ i p.
          filled.new16 i (omega arith) (omega arith) ∙ ap (rounds crc16_round 8) (omega arith);
    }

pub ensure_tables-IsBuilt : (s : CrcState) → IsValid s → IsBuilt (ensure_tables s)
unfolding ensure_tables
ensure_tables-IsBuilt s v = elim (Bool-cases s.tables_built) [
  | inl built ↦ simp built (v.once_built built)
  | inr not_built ↦ simp not_built (build_tables-IsBuilt s v)
]

IsBuilt-IsValid : {s : CrcState} → IsBuilt s → IsValid s
IsBuilt-IsValid b = record { size8 = b.size8; size16 = b.size16; once_built = λ _. b }

pub crc_start-IsValid : IsValid crc_start
unfolding crc_start
crc_start-IsValid = record {
  size8 = length-replicate {A = ℕ} 256 0;
  size16 = length-replicate {A = ℕ} 256 0;
  once_built = λ e. cc;
}
