-- ===== src/Packet/Reassembly/Rounds.antt =====
-- One round of the reassembler, when more bytes stand behind the ones that it looks at.
use embed_beetroot_hw_2_7_pr.Prelude.{
  ℕ, ◌+◌, ◌-◌, ◌/◌, ◌%◌, ◌^◌, ◌<◌, ◌≤◌, ◌≡◌, ◌⊎◌, inl, inr, refl, ap, ◌∙◌, arith, false, not, ◌||◌,
  Bool-cases, List, ◌++◌, ltb, ◌==◌, if◌then◌else◌, length, length-append, length-drop, take, drop,
  take-append, drop-append, get_or, get_or-append,
}
use embed_beetroot_hw_2_7_pr.Crc.{crc16}
use embed_beetroot_hw_2_7_pr.Packet.Words.{rd_u16le, rd_u16le-append_left}
use embed_beetroot_hw_2_7_pr.Packet.Reassembly.{Frame, Scan, wait, again, found, scan_frame}

-- What a round does with bytes that begin with the prefix, as the protocol describes it.
pub data Round (bytes : List ℕ) : Scan → Type 0 where
  no_header : length bytes < 6 → Round bytes (wait bytes)
  implausible :
      6 ≤ length bytes
      → (rd_u16le bytes 4 < 2) ⊎ (4096 < rd_u16le bytes 4)
      → Round bytes (again (drop 2 bytes))
  incomplete :
      2 ≤ rd_u16le bytes 4
      → rd_u16le bytes 4 ≤ 4096
      → 6 ≤ length bytes
      → length bytes < 6 + rd_u16le bytes 4
      → Round bytes (wait bytes)
  bad_sum :
      (n : ℕ)
      → rd_u16le bytes 4 ≡ n + 2
      → n + 2 ≤ 4096
      → 8 + n ≤ length bytes
      → (rd_u16le bytes (6 + n) == crc16 (take (6 + n) bytes)) ≡ false
      → Round bytes (again (drop 2 bytes))
  good :
      (n : ℕ)
      → rd_u16le bytes 4 ≡ n + 2
      → n + 2 ≤ 4096
      → 8 + n ≤ length bytes
      → rd_u16le bytes (6 + n) ≡ crc16 (take (6 + n) bytes)
      → Round bytes (
          found
            (record {
              frame_type = get_or bytes 2 0 / 2 ^ 4 % 2 ^ 8;
              payload = take n (drop 6 bytes);
            })
            bytes
            (8 + n))

checked-Round :
    (bytes : List ℕ)
    → 2 ≤ rd_u16le bytes 4
    → rd_u16le bytes 4 ≤ 4096
    → 6 + rd_u16le bytes 4 ≤ length bytes
    → Round bytes (
        if not (
          rd_u16le bytes (6 + rd_u16le bytes 4 - 2)
          == crc16 (take (6 + rd_u16le bytes 4 - 2) bytes))
        then again (drop 2 bytes)
        else found
            (record {
              frame_type = get_or bytes 2 0 / 2 ^ 4 % 2 ^ 8;
              payload = take (rd_u16le bytes 4 - 2) (drop 6 bytes);
            })
            bytes
            (6 + rd_u16le bytes 4))
checked-Round bytes h1 h2 h3 =
    let n = rd_u16le bytes 4 - 2 in
    let e : rd_u16le bytes 4 ≡ n + 2 = omega arith in
    let e1 : 6 + rd_u16le bytes 4 - 2 ≡ 6 + n = omega arith in
    let e2 : 6 + rd_u16le bytes 4 ≡ 8 + n = omega arith in
    elim (Bool-cases (rd_u16le bytes (6 + n) == crc16 (take (6 + n) bytes))) [
      | inl same ↦ rw (e1, same, e2) (good n e (omega arith) (omega arith) (ground arith))
      | inr differ ↦ rw (e1, differ) (bad_sum n e (omega arith) (omega arith) differ)
    ]

pub scan_frame-Round : (bytes : List ℕ) → Round bytes (scan_frame bytes)
unfolding scan_frame
scan_frame-Round bytes = elim (Bool-cases (ltb (length bytes) 6)) [
  | inl short ↦ rw short (no_header (ground arith))
  | inr long ↦
      rw long (elim (Bool-cases (ltb (rd_u16le bytes 4) 2 || ltb 4096 (rd_u16le bytes 4))) [
        | inl bad ↦ rw bad (implausible (ground arith) (ground arith))
        | inr plausible ↦
            rw plausible (elim (Bool-cases (ltb (length bytes) (6 + rd_u16le bytes 4))) [
              | inl partial ↦
                  rw partial
                    (incomplete (ground arith) (ground arith) (ground arith) (ground arith))
              | inr whole ↦
                  rw whole (checked-Round bytes (ground arith) (ground arith) (ground arith))
            ])
      ])
]

pub Round-scan_frame : (bytes : List ℕ) {s : Scan} → Round bytes s → scan_frame bytes ≡ s
unfolding scan_frame
Round-scan_frame bytes (no_header h) = ground arith
Round-scan_frame bytes (implausible h p) = ground arith
Round-scan_frame bytes (incomplete h1 h2 h3 h4) = ground arith
Round-scan_frame bytes (bad_sum n e h1 h2 h3) =
    let e1 : 6 + (n + 2) - 2 ≡ 6 + n = omega arith in rw (e, e1, h3) (ground arith)
Round-scan_frame bytes (good n e h1 h2 h3) =
    let e1 : 6 + (n + 2) - 2 ≡ 6 + n = omega arith in
    let e2 : 6 + (n + 2) ≡ 8 + n = omega arith in
    let e3 : n + 2 - 2 ≡ n = omega arith in rw (e, e1, e2, e3, h3) (ground arith)

pub Round-wait : (bytes : List ℕ) {left : List ℕ} → Round bytes (wait left) → left ≡ bytes
Round-wait bytes (no_header h) = refl
Round-wait bytes (incomplete h1 h2 h3 h4) = refl

pub Round-again_append :
    (bytes more : List ℕ) {left : List ℕ}
    → Round bytes (again left)
    → scan_frame (bytes ++ more) ≡ again (left ++ more)
Round-again_append bytes more (implausible h p) =
    let field = rd_u16le-append_left bytes more 4 (omega arith) in
    let p' : (rd_u16le (bytes ++ more) 4 < 2) ⊎ (4096 < rd_u16le (bytes ++ more) 4) = rw field p in
    Round-scan_frame (bytes ++ more) (implausible (omega (arith, length-append bytes more)) p')
    ∙ ap again (drop-append 2 bytes more (omega arith))
Round-again_append bytes more (bad_sum n e h1 h2 h3) =
    let field = rd_u16le-append_left bytes more 4 (omega arith) in
    Round-scan_frame (bytes ++ more) (
      bad_sum n (field ∙ e) h1 (omega (arith, length-append bytes more)) (
        rw
          (
            rd_u16le-append_left bytes more (6 + n) (omega arith),
            take-append (6 + n) bytes more (omega arith),
          )
          h3))
    ∙ ap again (drop-append 2 bytes more (omega arith))

pub Round-found_append :
    (bytes more : List ℕ) {frame : Frame} {left : List ℕ} {data_end : ℕ}
    → Round bytes (found frame left data_end)
    → scan_frame (bytes ++ more) ≡ found frame (left ++ more) data_end
Round-found_append bytes more (good n e h1 h2 h3) =
    let field = rd_u16le-append_left bytes more 4 (omega arith) in
    let payload : take n (drop 6 (bytes ++ more)) ≡ take n (drop 6 bytes) =
      ap (take n) (drop-append 6 bytes more (omega arith))
      ∙ take-append n (drop 6 bytes) more (omega (arith, length-drop 6 bytes)) in
    Round-scan_frame (bytes ++ more) (
      good n (field ∙ e) h1 (omega (arith, length-append bytes more)) (
        rw
          (
            rd_u16le-append_left bytes more (6 + n) (omega arith),
            take-append (6 + n) bytes more (omega arith),
          )
          h3))
    ∙ (rw (payload, get_or-append bytes more 2 0 (omega arith)) refl)

-- Where a frame was found it lies whole in the bytes; where the scan goes round, bytes are gone.
pub Round-found_fits :
    (bytes : List ℕ) {frame : Frame} {left : List ℕ} {data_end : ℕ}
    → Round bytes (found frame left data_end)
    → (left ≡ bytes) × (8 ≤ data_end) × (data_end ≤ length bytes)
Round-found_fits bytes (good n e h1 h2 h3) = (refl, omega arith, omega arith)

pub Round-again_shrinks :
    (bytes : List ℕ) {left : List ℕ}
    → Round bytes (again left)
    → (length left < length bytes) × (6 ≤ length bytes)
Round-again_shrinks bytes (implausible h p) = (omega (arith, length-drop 2 bytes), h)
Round-again_shrinks bytes (bad_sum n e h1 h2 h3) = (omega (arith, length-drop 2 bytes), omega arith)
