-- ===== src/Ecdh.antt =====
-- main/src/river2_ecdh.c: the wrapper around micro-ecc. What micro-ecc returns is a record of
-- functions, and whether `calloc` finds memory is an argument.
use embed_beetroot_hw_2_7_pr.Prelude.{
  ℕ, ◌-◌, Bool, not, Option, none, some, List, ◌==◌, if◌then◌else◌, length, Result, ok, err, fail,
  no_mem, invalid_size, invalid_arg,
}

abbrev pub river2_ecdh_pubkey_size : ℕ
river2_ecdh_pubkey_size = 40

-- `make_key` is what one call returns: it draws its own random bytes.
pub record Ecc : Type 0 where
  pub make_key : Option (List ℕ × List ℕ)
  pub valid_public_key : List ℕ → Bool
  pub shared_secret : List ℕ → List ℕ → Option (List ℕ)

pub record EcdhCtx : Type 0 where
  pub priv : List ℕ

-- The context and the public key.
unfoldable pub river2_ecdh_gen_keypair : Ecc → Bool → Result (EcdhCtx × List ℕ)
river2_ecdh_gen_keypair ecc memory = if not memory then err no_mem else elim ecc.make_key [
  | none ↦ err fail
  | some (public_key, priv) ↦ ok (record { priv = priv }, public_key)
]

-- How many contexts are allocated after one of them is freed.
unfoldable pub river2_ecdh_free : ℕ → ℕ
river2_ecdh_free contexts = contexts - 1

unfoldable pub river2_ecdh_shared_secret : Ecc → EcdhCtx → List ℕ → Result (List ℕ)
river2_ecdh_shared_secret ecc ctx peer =
    if not (length peer == river2_ecdh_pubkey_size)
    then err invalid_size
    else if not (ecc.valid_public_key peer)
    then err invalid_arg
    else elim (ecc.shared_secret peer ctx.priv) [ none ↦ err fail | some secret ↦ ok secret ]
