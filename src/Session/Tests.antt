-- ===== src/Session/Tests.antt =====
-- The theorems on the session cipher at concrete bytes.
use embed_beetroot_hw_2_7_pr.Prelude.{ℕ, ◌≡◌, arith, List, [], ◌∷◌, ◌++◌, replicate, ok, and_then}
use embed_beetroot_hw_2_7_pr.Session.{aes_cbc_encrypt_pkcs7, river2_session_decrypt}
use embed_beetroot_hw_2_7_pr.Session.Cbc.{
  Decrypts, river2_session_decrypt-Decrypts, river2_session_decrypt-encrypt,
}
use embed_beetroot_hw_2_7_pr.Session.Sample.{
  plain_psa, same_blocks, plain_psa-IsCbc, a_session, a_session-IsSession,
}

-- A block with three bytes of padding, and a byte that fills no block.
abbrev cipher_bytes : List ℕ
cipher_bytes = replicate 13 9 ++ 3 ∷ 3 ∷ 3 ∷ 5 ∷ []

river2_session_decrypt-Decrypts_example :
    Decrypts same_blocks a_session cipher_bytes 64
      (river2_session_decrypt plain_psa a_session cipher_bytes (replicate 64 0) 64)
river2_session_decrypt-Decrypts_example =
    river2_session_decrypt-Decrypts plain_psa same_blocks same_blocks plain_psa-IsCbc a_session
      a_session-IsSession cipher_bytes (replicate 64 0) 64

-- Bytes that look padded themselves.
river2_session_decrypt-encrypt_example :
    and_then
      (aes_cbc_encrypt_pkcs7 plain_psa a_session (9 ∷ 2 ∷ 2 ∷ []) 320)
      (λ encrypted. river2_session_decrypt plain_psa a_session encrypted (replicate 64 0) 64)
    ≡ ok (9 ∷ 2 ∷ 2 ∷ [])
river2_session_decrypt-encrypt_example =
    river2_session_decrypt-encrypt plain_psa same_blocks same_blocks plain_psa-IsCbc a_session
      a_session-IsSession (9 ∷ 2 ∷ 2 ∷ []) (replicate 64 0) 320 64 (omega arith) (omega arith)
