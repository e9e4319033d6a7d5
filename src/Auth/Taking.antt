-- ===== src/Auth/Taking.antt =====
-- The inner loop of `wait_for_frame`: frames are taken out of the buffer until one is wanted.
use embed_beetroot_hw_2_7_pr.Prelude.{
  ℕ, zero, suc, ◌<◌, ◌≡◌, ◌≢◌, sym, ap, ◌∙◌, arith, true, Bool-cases, inl, inr, Option, none, some,
  List, [], ◌∷◌, ◌++◌, append_assoc, ◌==◌, ==_iff, length, ok, err,
}
use embed_beetroot_hw_2_7_pr.Packet.Reassembly.{
  FrameBuf, Frame, Outcome, extracted, absent, stuck, river2_framebuf_extract,
}
use embed_beetroot_hw_2_7_pr.Packet.Reassembly.Chunks.{prepend, frames_in}
use embed_beetroot_hw_2_7_pr.Packet.Reassembly.Client.{Takes, extract-Takes}
use embed_beetroot_hw_2_7_pr.Ble.Calls.{wait_notification}
use embed_beetroot_hw_2_7_pr.Auth.{Reading, keep_frame, take_frame, notify_chunk_max}

abbrev pub AreOther : ℕ → List Frame → Type 0
AreOther want [] = Unit
AreOther want (frame ∷ frames) = (frame.frame_type ≢ want) × AreOther want frames

pub AreOther-append :
    (want : ℕ) (xs ys : List Frame) → AreOther want xs → AreOther want ys → AreOther want (xs ++ ys)
AreOther-append want [] ys h h' = h'
AreOther-append want (x ∷ xs) ys h h' = (h.0, AreOther-append want xs ys h.1 h')

-- The payload is that of the first wanted frame in the bytes, and what is left holds the frames
-- behind it.
pub record First (want : ℕ) (bytes payload left : List ℕ) : Type 0 where
  pub skipped : List Frame
  pub are_other : AreOther want skipped
  pub order :
      frames_in bytes
      ≡ prepend (skipped ++ record { frame_type = want; payload = payload } ∷ []) (frames_in left)

-- The bytes have frames of other types only, and then `left`.
pub record NoneWanted (want : ℕ) (bytes left : List ℕ) : Type 0 where
  pub skipped : List Frame
  pub are_other : AreOther want skipped
  pub order : frames_in bytes ≡ (skipped, left)

abbrev pub Took : ℕ → List ℕ → Option (List ℕ) × FrameBuf → Type 0
Took want bytes (some payload, fb) = First want bytes payload fb.bytes
Took want bytes (none, fb) = NoneWanted want bytes fb.bytes

pub prepend-prepend :
    (xs ys : List Frame) (r : List Frame × List ℕ)
    → prepend xs (prepend ys r) ≡ prepend (xs ++ ys) r
prepend-prepend xs ys (zs, left) = ap (λ l. (l, left)) (sym (append_assoc xs ys zs))

Took-skip :
    (want : ℕ) (bytes later : List ℕ) (frame : Frame) (r : Option (List ℕ) × FrameBuf)
    → frame.frame_type ≢ want
    → frames_in bytes ≡ prepend (frame ∷ []) (frames_in later)
    → Took want later r
    → Took want bytes r
Took-skip want bytes later frame (some payload, fb) other e t = record {
  skipped = frame ∷ t.skipped;
  are_other = (other, t.are_other);
  order = e ∙ ap (prepend (frame ∷ [])) t.order;
}
Took-skip want bytes later frame (none, fb) other e t = record {
  skipped = frame ∷ t.skipped;
  are_other = (other, t.are_other);
  order = e ∙ ap (prepend (frame ∷ [])) t.order;
}

keep_frame-Took :
    (want : ℕ) (bytes : List ℕ) (rest : FrameBuf → Option (List ℕ) × FrameBuf)
    (r : Outcome × FrameBuf)
    → Takes bytes r
    → ((fb : FrameBuf) → length fb.bytes < length bytes → Took want fb.bytes (rest fb))
    → Took want bytes (keep_frame want rest r)
unfolding keep_frame
keep_frame-Took want bytes rest (extracted frame, fb) t ih =
    elim (Bool-cases (frame.frame_type == want)) [
      | inl same ↦
          let type_is : frame.frame_type ≡ want = (==_iff frame.frame_type want).0 same in
          let frame_is : (let g : Frame = record { frame_type = want; payload = frame.payload } in
                g)
              ≡ frame =
            λ i. record { frame_type = sym type_is i; payload = frame.payload } in
          rw same (record {
            skipped = [];
            are_other = tt;
            order = t.0 ∙ ap (λ g. prepend (g ∷ []) (frames_in fb.bytes)) (sym frame_is);
          })
      | inr other ↦
          rw other (Took-skip want bytes fb.bytes frame (rest fb) (ground arith) t.0 (ih fb t.1))
    ]
keep_frame-Took want bytes rest (absent, fb) t ih = record {
  skipped = [];
  are_other = tt;
  order = t;
}
keep_frame-Took want bytes rest (stuck, fb) t ih = absurd t

pub take_frame-Took :
    (fuel want : ℕ) (fb : FrameBuf)
    → length fb.bytes < fuel
    → Took want fb.bytes (take_frame fuel true want fb)
unfolding take_frame
take_frame-Took zero want fb h = absurd (omega arith)
take_frame-Took (suc fuel) want fb h =
    keep_frame-Took want fb.bytes (take_frame fuel true want) (river2_framebuf_extract true fb)
      (extract-Takes (suc (length fb.bytes)) fb (omega arith))
      (λ fb' shorter. take_frame-Took fuel want fb' (omega arith))

-- What a reading adds to the stream: a notification, cut to the size of the local array.
abbrev pub chunk_of : Reading → List ℕ
chunk_of reading = elim (wait_notification reading.received notify_chunk_max) [
  | ok chunk ↦ chunk
  | err e ↦ []
]

abbrev pub stream : List Reading → List ℕ
stream [] = []
stream (reading ∷ readings) = chunk_of reading ++ stream readings
