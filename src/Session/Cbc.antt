-- ===== src/Session/Cbc.antt =====
-- The session cipher over a cryptographic library that does what its documentation says.
use embed_beetroot_hw_2_7_pr.Prelude.{
  ℕ, ◌+◌, ◌-◌, ◌%◌, ◌≤◌, ◌<◌, ◌≡◌, inl, inr, refl, sym, ap, ◌∙◌, arith, subst, false, Bool-cases,
  some, List, [], ◌∷◌, ◌++◌, ltb, ◌==◌, length, length-append, length-replicate, length-take, take,
  drop, replicate, take-append_length, append_assoc, IsBytes, append-nil, ==_iff, ltb→lt, and_then,
  Result, ok, err, invalid_size,
}
use embed_beetroot_hw_2_7_pr.Session.{
  Psa, Session, encrypt, decrypt, cbc_pkcs7, cbc_no_padding, run_operation, written, import_aes_key,
  aes_cbc_encrypt_pkcs7, unpadded_length, river2_session_decrypt,
}
use embed_beetroot_hw_2_7_pr.Session.Padding.{
  Unpads, bare, unpadded_length-Unpads, unpadded_length-padded,
}

-- The padding of PKCS7 for blocks of 16 bytes.
abbrev pub pkcs7_pad : ℕ → ℕ
pkcs7_pad n = 16 - n % 16

abbrev pub pkcs7 : List ℕ → List ℕ
pkcs7 bytes = bytes ++ replicate (pkcs7_pad (length bytes)) (pkcs7_pad (length bytes))

-- Block chaining with a key and an iv of 16 bytes: `cbc_encrypt` and `cbc_decrypt` stand for the
-- functions that the standard defines on whole blocks.
pub record IsCbc (psa : Psa) (cbc_encrypt cbc_decrypt : List ℕ → List ℕ → List ℕ → List ℕ)
    : Type 0 where
  pub encrypts :
      (key iv bytes : List ℕ) (out_cap : ℕ)
      → length key ≡ 16
      → length iv ≡ 16
      → length (pkcs7 bytes) ≤ out_cap
      → (key_id : psa.KeyId) × (psa.import_key encrypt cbc_pkcs7 key ≡ some key_id)
        × (run_operation psa (psa.cipher_encrypt_setup key_id cbc_pkcs7) iv bytes out_cap
            ≡ some (cbc_encrypt key iv (pkcs7 bytes)))
  pub decrypts :
      (key iv blocks : List ℕ) (out_cap : ℕ)
      → length key ≡ 16
      → length iv ≡ 16
      → length blocks % 16 ≡ 0
      → length blocks ≤ out_cap
      → (key_id : psa.KeyId) × (psa.import_key decrypt cbc_no_padding key ≡ some key_id)
        × (run_operation psa (psa.cipher_decrypt_setup key_id cbc_no_padding) iv blocks out_cap
            ≡ some (cbc_decrypt key iv blocks))
  pub inverse :
      (key iv blocks : List ℕ)
      → length blocks % 16 ≡ 0
      → cbc_decrypt key iv (cbc_encrypt key iv blocks) ≡ blocks
  pub encrypt_bytes :
      (key iv blocks : List ℕ) → IsBytes blocks → IsBytes (cbc_encrypt key iv blocks)
  pub encrypt_length : (key iv blocks : List ℕ) → length (cbc_encrypt key iv blocks) ≡ length blocks
  pub decrypt_length : (key iv blocks : List ℕ) → length (cbc_decrypt key iv blocks) ≡ length blocks

-- A session that the handshake agrees on.
pub record IsSession (c : Session) : Type 0 where
  pub key_length : length c.key ≡ 16
  pub iv_length : length c.iv ≡ 16

abbrev pub encrypted_by : (List ℕ → List ℕ → List ℕ → List ℕ) → Session → List ℕ → List ℕ
encrypted_by cbc_encrypt c bytes = cbc_encrypt c.key c.iv (pkcs7 bytes)

abbrev pub aligned : List ℕ → ℕ
aligned bytes = length bytes - length bytes % 16

-- The result of a decryption by the code of its failure.
abbrev pub Decrypts :
    (List ℕ → List ℕ → List ℕ → List ℕ) → Session → List ℕ → ℕ → Result (List ℕ) → Type 0
Decrypts cbc_decrypt c bytes out_cap (ok plain) =
    (aligned bytes ≤ out_cap) × Unpads (cbc_decrypt c.key c.iv (take (aligned bytes) bytes)) plain
Decrypts cbc_decrypt c bytes out_cap (err e) = (out_cap < aligned bytes) × (e ≡ invalid_size)

nothing_padded : (plain : List ℕ) → length plain ≡ 0 → Unpads plain []
nothing_padded [] h = bare [] (λ body p low high e.
    absurd (omega (arith, ap length e, length-append body (replicate p p), length-replicate p p)))
nothing_padded (x ∷ xs) h = absurd (omega arith)

pub take_whole : (n : ℕ) (xs : List ℕ) → n ≡ length xs → take n xs ≡ xs
take_whole n xs h = ap (take n) (sym (append-nil xs)) ∙ take-append_length n xs [] h

module _ (psa : Psa) (cbc_encrypt cbc_decrypt : List ℕ → List ℕ → List ℕ → List ℕ)
    (laws : IsCbc psa cbc_encrypt cbc_decrypt) (c : Session) (session : IsSession c) where
  -- What the two calls return, when nothing is refused.
  decrypt_run :
      (bytes out : List ℕ) (out_cap : ℕ)
      → 0 < aligned bytes
      → aligned bytes ≤ out_cap
      → (let plain = cbc_decrypt c.key c.iv (take (aligned bytes) bytes) in
          let out' = plain ++ drop (length plain) out in
          river2_session_decrypt psa c bytes out out_cap
          ≡ ok (take (unpadded_length out' (aligned bytes)) out'))
  unfolding river2_session_decrypt import_aes_key written
  decrypt_run bytes out out_cap some_blocks room =
      let some_left : (aligned bytes == 0) ≡ false = ground arith in
      let roomy : ltb out_cap (aligned bytes) ≡ false = ground arith in
      let size : length (take (aligned bytes) bytes) ≡ aligned bytes =
        omega (arith, length-take (aligned bytes) bytes) in
      let (key_id, imported, run) =
        laws.decrypts c.key c.iv (take (aligned bytes) bytes) out_cap session.key_length
          session.iv_length (omega arith) (omega arith) in
      rw (some_left, roomy, imported, run) refl

  -- Over a library that does CBC as documented, and with a key and an iv of 16 bytes: with room
  -- for the whole blocks, the caller gets their decryption without its padding, which is removed
  -- exactly when it is a number from 1 to 16 written that many times; without room, the result
  -- is the size error. What does not fill a block is left out, and the old contents of the
  -- buffer do not matter.
  pub river2_session_decrypt-Decrypts :
      (bytes out : List ℕ) (out_cap : ℕ)
      → Decrypts cbc_decrypt c bytes out_cap (river2_session_decrypt psa c bytes out out_cap)
  unfolding river2_session_decrypt
  river2_session_decrypt-Decrypts bytes out out_cap = elim (Bool-cases (aligned bytes == 0)) [
    | inl no_block ↦ rw no_block (
      ground arith,
      nothing_padded (cbc_decrypt c.key c.iv (take (aligned bytes) bytes)) (
          omega (
            arith,
            laws.decrypt_length c.key c.iv (take (aligned bytes) bytes),
            length-take (aligned bytes) bytes,
            (==_iff (aligned bytes) 0).0 no_block,
          )),
    )
    | inr some_block ↦ elim (Bool-cases (ltb out_cap (aligned bytes))) [
      | inl small ↦ rw (some_block, small) (ltb→lt out_cap (aligned bytes) small, refl)
      | inr roomy ↦
          let plain = cbc_decrypt c.key c.iv (take (aligned bytes) bytes) in
          subst (Decrypts cbc_decrypt c bytes out_cap)
            (sym (decrypt_run bytes out out_cap (ground arith) (ground arith)))
            (
              ground arith,
              unpadded_length-Unpads plain (drop (length plain) out) (aligned bytes) (
                  omega (
                    arith,
                    laws.decrypt_length c.key c.iv (take (aligned bytes) bytes),
                    length-take (aligned bytes) bytes,
                  )),
            )
    ]
  ]

  pub encrypt_run :
      (bytes : List ℕ) (out_cap : ℕ)
      → length (pkcs7 bytes) ≤ out_cap
      → aes_cbc_encrypt_pkcs7 psa c bytes out_cap ≡ ok (cbc_encrypt c.key c.iv (pkcs7 bytes))
  unfolding aes_cbc_encrypt_pkcs7 import_aes_key written
  encrypt_run bytes out_cap room =
      let (key_id, imported, run) =
        laws.encrypts c.key c.iv bytes out_cap session.key_length session.iv_length room in
      rw (aes_cbc_encrypt_pkcs7, import_aes_key, imported, run) refl

  -- Over a library that does CBC as documented, and with a key and an iv of 16 bytes: what was
  -- encrypted, with room for 16 bytes more in both buffers, is decrypted to what it was,
  -- whatever it is and whatever its own last bytes look like.
  pub river2_session_decrypt-encrypt :
      (bytes out : List ℕ) (room out_cap : ℕ)
      → length bytes + 16 ≤ room
      → length bytes + 16 ≤ out_cap
      → and_then
          (aes_cbc_encrypt_pkcs7 psa c bytes room)
          (λ encrypted. river2_session_decrypt psa c encrypted out out_cap)
        ≡ ok bytes
  river2_session_decrypt-encrypt bytes out room out_cap h h' =
      let p = pkcs7_pad (length bytes) in
      let padded = pkcs7 bytes in
      let size : length padded ≡ length bytes + p =
        omega (arith, length-append bytes (replicate p p), length-replicate p p) in
      let encrypted = cbc_encrypt c.key c.iv padded in
      let blocks : aligned encrypted ≡ length padded =
        omega (arith, laws.encrypt_length c.key c.iv padded) in
      let whole : take (aligned encrypted) encrypted ≡ encrypted =
        take_whole (aligned encrypted) encrypted
          (omega (arith, laws.encrypt_length c.key c.iv padded)) in
      let plain : cbc_decrypt c.key c.iv (take (aligned encrypted) encrypted) ≡ padded =
        ap (cbc_decrypt c.key c.iv) whole ∙ laws.inverse c.key c.iv padded (omega arith) in
      ap (λ r. and_then r (λ e. river2_session_decrypt psa c e out out_cap))
        (encrypt_run bytes room (omega arith))
      ∙ decrypt_run encrypted out out_cap (omega arith) (omega arith)
      ∙ ap
          (λ l. ok (
            take (unpadded_length (l ++ drop (length l) out) (aligned encrypted))
              (l ++ drop (length l) out)))
          plain
      ∙ ap (λ n. ok (take n (padded ++ drop (length padded) out)))
          (unpadded_length-padded bytes (drop (length padded) out) (aligned encrypted) p
            (omega arith) (omega arith) (omega arith))
      ∙ ap ok (
          ap (take (length bytes)) (append_assoc bytes (replicate p p) (drop (length padded) out))
          ∙ take-append_length (length bytes) bytes _ refl)

  -- The ciphertext of another program with the same session, such as the device's.
  pub decrypt-encrypted_by :
      (bytes out : List ℕ) (out_cap : ℕ)
      → length bytes + 16 ≤ out_cap
      → river2_session_decrypt psa c (encrypted_by cbc_encrypt c bytes) out out_cap ≡ ok bytes
  decrypt-encrypted_by bytes out out_cap room =
      let pad = pkcs7_pad (length bytes) in
      let padded : length (pkcs7 bytes) ≤ length bytes + 16 =
        omega (arith, length-append bytes (replicate pad pad), length-replicate pad pad) in
      let decrypt = λ (e : List ℕ). river2_session_decrypt psa c e out out_cap in
      sym (ap (λ r. and_then r decrypt) (encrypt_run bytes (length bytes + 16) padded))
      ∙ river2_session_decrypt-encrypt bytes out (length bytes + 16) out_cap (omega arith) room
