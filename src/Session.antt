-- ===== src/Session.antt =====
-- main/src/river2_auth.c, the cipher: `river2_md5`, `aes_cbc_encrypt_pkcs7` and
-- `river2_session_decrypt`. The calls of PSA Crypto are a record of functions.
pub mod Padding
pub mod Cbc
pub mod Sample
mod Tests
use embed_beetroot_hw_2_7_pr.Prelude.{
  ℕ, zero, suc, ◌+◌, ◌-◌, ◌%◌, Bool, true, false, not, ◌&&◌, Option, none, some, List, [], ◌++◌,
  ltb, leb, ◌==◌, if◌then◌else◌, length, get_or, take, drop, Result, ok, err, fail, invalid_size,
}
use mathlib.Core.Option

pub data Usage : Type 0 where
  encrypt decrypt : Usage

pub data Algorithm : Type 0 where
  cbc_pkcs7 cbc_no_padding : Algorithm

-- The calls that succeed return something; a call that has failed returns `none`. `river2_md5` does
-- not look at the status of `psa_hash_compute`, which is taken to succeed.
pub record Psa : Type 1 where
  pub KeyId : Type 0
  pub Operation : Type 0
  pub hash_compute_md5 : List ℕ → List ℕ
  pub import_key : Usage → Algorithm → List ℕ → Option KeyId
  pub cipher_encrypt_setup : KeyId → Algorithm → Option Operation
  pub cipher_decrypt_setup : KeyId → Algorithm → Option Operation
  pub cipher_set_iv : Operation → List ℕ → Option Operation
  -- The bytes, and the room in the output buffer; the result is what is written.
  pub cipher_update : Operation → List ℕ → ℕ → Option (Operation × List ℕ)
  pub cipher_finish : Operation → ℕ → Option (List ℕ)

pub record Session : Type 0 where
  pub key : List ℕ
  pub iv : List ℕ

unfoldable pub river2_md5 : Psa → List ℕ → List ℕ
river2_md5 psa bytes = psa.hash_compute_md5 bytes

-- What both functions do with an operation that was set up: the bytes that `update` and `finish`
-- write, one behind the other.
pub run_operation : (psa : Psa) → Option psa.Operation → List ℕ → List ℕ → ℕ → Option (List ℕ)
run_operation psa none iv bytes out_cap = none
run_operation psa (some op) iv bytes out_cap = elim (psa.cipher_set_iv op iv) [
  | none ↦ none
  | some started ↦ elim (psa.cipher_update started bytes out_cap) [
    | none ↦ none
    | some (updated, first) ↦
        Option.map (λ second. first ++ second) (psa.cipher_finish updated (out_cap - length first))
  ]
]

-- The bytes that stand in `out`, and the code of the failure.
pub written : Option (List ℕ) → Result (List ℕ)
written none = err fail
written (some bytes) = ok bytes

pub import_aes_key : (psa : Psa) → List ℕ → Usage → Algorithm → Result psa.KeyId
import_aes_key psa key usage algorithm = elim (psa.import_key usage algorithm key) [
  | none ↦ err fail
  | some key_id ↦ ok key_id
]

pub aes_cbc_encrypt_pkcs7 : Psa → Session → List ℕ → ℕ → Result (List ℕ)
unfolding import_aes_key run_operation written
aes_cbc_encrypt_pkcs7 psa c bytes out_cap = elim (import_aes_key psa c.key encrypt cbc_pkcs7) [
  | err e ↦ err e
  | ok key_id ↦
      written (run_operation psa (psa.cipher_encrypt_setup key_id cbc_pkcs7) c.iv bytes out_cap)
]

-- The loop over `i`, with `left` rounds to go.
pub pad_matches : List ℕ → ℕ → ℕ → ℕ → ℕ → Bool
pad_matches out aligned pad zero i = true
pad_matches out aligned pad (suc left) i =
    let rest = pad_matches out aligned pad left (i + 1) in
    if not (get_or out (aligned - 1 - i) 0 == pad) then false else rest

pub valid_pad : List ℕ → ℕ → Bool
unfolding pad_matches
valid_pad out aligned =
    let pad = get_or out (aligned - 1) 0 in
    if leb 1 pad && leb pad 16 && leb pad aligned then pad_matches out aligned pad pad 0 else false

-- The length that the caller is told.
pub unpadded_length : List ℕ → ℕ → ℕ
unfolding valid_pad
unpadded_length out aligned =
    let pad = get_or out (aligned - 1) 0 in if valid_pad out aligned then aligned - pad else aligned

-- `out` is the caller's buffer as it was, of `out_cap` bytes; the result is what the caller may
-- read of it.
pub river2_session_decrypt : Psa → Session → List ℕ → List ℕ → ℕ → Result (List ℕ)
unfolding import_aes_key run_operation written unpadded_length
river2_session_decrypt psa c bytes out out_cap =
    let aligned = length bytes - length bytes % 16 in
    if aligned == 0
    then ok []
    else if ltb out_cap aligned
    then err invalid_size
    else elim (import_aes_key psa c.key decrypt cbc_no_padding) [
      | err e ↦ err e
      | ok key_id ↦
          elim (written (
            run_operation psa (psa.cipher_decrypt_setup key_id cbc_no_padding) c.iv
              (take aligned bytes) out_cap)) [
                | err e ↦ err e
                | ok plain ↦
                    let out' = plain ++ drop (length plain) out in
                    ok (take (unpadded_length out' aligned) out')
              ]
    ]
