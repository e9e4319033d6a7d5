-- ===== src/Packet/Append.antt =====
-- The common end of the two builders: the payload goes behind the header, and the CRC16 of both
-- behind the payload.
use embed_beetroot_hw_2_7_pr.Prelude.{
  ℕ, ◌+◌, ◌≤◌, ◌≡◌, refl, sym, ap, ◌∙◌, arith, ltb, List, [], ◌∷◌, ◌++◌, length, length-append,
  length-drop, drop, take, memcpy, overwrite-eq-append, take-append_length, append_assoc,
  memcpy-append, two_places, drop-drop, IsBytes, IsBytes-append, if◌then◌else◌,
}
use embed_beetroot_hw_2_7_pr.Crc.{crc16}
use embed_beetroot_hw_2_7_pr.Crc.Reference.{crc16-lt}
use embed_beetroot_hw_2_7_pr.Packet.Words.{le16, wr_u16le, wr_u16le-append}

-- `memcpy` under its test: nothing is copied for an empty payload, which is the same.
copy_payload :
    (at : ℕ) (header payload rest : List ℕ)
    → length header ≡ at
    → length payload ≤ length rest
    → (if ltb 0 (length payload) then memcpy (header ++ rest) at payload else header ++ rest)
      ≡ header ++ (payload ++ drop (length payload) rest)
copy_payload at header [] rest hh hr = refl
copy_payload at header (p ∷ ps) rest hh hr =
    (ground arith)
    ∙ memcpy-append header rest (p ∷ ps) at (sym hh)
    ∙ ap (◌++◌ header) (overwrite-eq-append rest (p ∷ ps) hr)

-- The CRC16 of what stands in front is written into the two places that follow.
append_crc :
    (body rest : List ℕ) (n : ℕ)
    → n ≡ length body
    → 2 ≤ length rest
    → IsBytes body
    → wr_u16le (body ++ rest) n (crc16 (take n (body ++ rest)))
      ≡ body ++ (le16 (crc16 body) ++ drop 2 rest)
append_crc body rest n at hr bs =
    let (a, (b, e)) = two_places rest hr in
    (rw (take-append_length n body rest at, e) refl)
    ∙ wr_u16le-append body (drop 2 rest) n a b (crc16 body) at (crc16-lt body bs)

pub append_payload :
    (at : ℕ) (header payload rest : List ℕ)
    → length header ≡ at
    → length payload + 2 ≤ length rest
    → IsBytes header
    → IsBytes payload
    → let body =
        if ltb 0 (length payload) then memcpy (header ++ rest) at payload else header ++ rest in
      wr_u16le body (at + length payload) (crc16 (take (at + length payload) body))
      ≡ (header ++ payload) ++ (le16 (crc16 (header ++ payload)) ++ drop (length payload + 2) rest)
append_payload at header payload rest hh hr bh bp =
    rw
      (
        copy_payload at header payload rest hh (omega arith),
        ← append_assoc header payload (drop (length payload) rest),
        append_crc (header ++ payload) (drop (length payload) rest) (at + length payload)
            (omega (arith, length-append header payload))
            (omega (arith, length-drop (length payload) rest))
            (IsBytes-append header payload bh bp),
        drop-drop 2 (length payload) rest,
      )
      refl
