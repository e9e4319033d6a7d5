-- ===== src/Session/Sample.antt =====
-- A cryptographic library for the tests: block chaining over the cipher that changes nothing.
use embed_beetroot_hw_2_7_pr.Prelude.{ℕ, refl, ap, some, List, [], append-nil, replicate}
use embed_beetroot_hw_2_7_pr.Session.{
  Psa, Session, Algorithm, cbc_pkcs7, cbc_no_padding, run_operation,
}
use embed_beetroot_hw_2_7_pr.Session.Cbc.{IsCbc, IsSession, pkcs7}

-- An operation knows whether it pads.
abbrev pub plain_psa : Psa
plain_psa = record {
  KeyId = Unit;
  Operation = Algorithm;
  hash_compute_md5 = λ bytes. replicate 16 7;
  import_key = λ usage algorithm key. some tt;
  cipher_encrypt_setup = λ key_id algorithm. some algorithm;
  cipher_decrypt_setup = λ key_id algorithm. some algorithm;
  cipher_set_iv = λ op iv. some op;
  cipher_update =
      λ op bytes room. some (op, elim op [ cbc_pkcs7 ↦ pkcs7 bytes | cbc_no_padding ↦ bytes ]);
  cipher_finish = λ op room. some [];
}

abbrev pub same_blocks : List ℕ → List ℕ → List ℕ → List ℕ
same_blocks key iv blocks = blocks

pub plain_psa-IsCbc : IsCbc plain_psa same_blocks same_blocks
unfolding run_operation
plain_psa-IsCbc = record {
  encrypts = λ key iv bytes out_cap hk hi room. (tt, refl, ap some (append-nil (pkcs7 bytes)));
  decrypts = λ key iv blocks out_cap hk hi whole room. (tt, refl, ap some (append-nil blocks));
  inverse = λ key iv blocks whole. refl;
  encrypt_bytes = λ key iv blocks h. h;
  encrypt_length = λ key iv blocks. refl;
  decrypt_length = λ key iv blocks. refl;
}

abbrev pub a_session : Session
a_session = record { key = replicate 16 1; iv = replicate 16 2 }

pub a_session-IsSession : IsSession a_session
a_session-IsSession = record { key_length = refl; iv_length = refl }
