-- ===== src/Auth/Protocol/Takes.antt =====
-- What a wait for a frame, and the wait for a reply that ends a step, have heard.
use embed_beetroot_hw_2_7_pr.Prelude.{
  ℕ, ◌≡◌, refl, ap, Bool, ◌≢◌, ==_iff, false, true, Option, none, some, List, [], ◌∷◌, ◌++◌, ◌==◌,
  if◌then◌else◌, Result, ok, err,
}
use embed_beetroot_hw_2_7_pr.Packet.Words.{river2_frame_data}
use embed_beetroot_hw_2_7_pr.Packet.Reassembly.{Frame}
use embed_beetroot_hw_2_7_pr.Auth.Taking.{AreOther}
use embed_beetroot_hw_2_7_pr.Auth.Replies.{Verdict, keep_waiting, finished}
use embed_beetroot_hw_2_7_pr.Auth.Protocol.{
  next, received, receive_frame, settle, answered, receive_answer,
}
use embed_beetroot_hw_2_7_pr.Auth.Protocol.Hearing.{frame, ArePassed}
use embed_beetroot_hw_2_7_pr.Auth.Protocol.Hears.{OfOk, Hears}

-- The frame of a type that a wait took, and those it passed over.
pub record Took (want : ℕ) (frames : List Frame) (payload : List ℕ) (later : List Frame)
    : Type 0 where
  pub skipped : List Frame
  pub are_other : AreOther want skipped
  pub order : frames ≡ skipped ++ frame want payload ∷ later

-- The data frame that ended a step, and those it passed over.
pub record Settled (judged : List ℕ → Verdict) (frames : List Frame) (payload : List ℕ)
    (later : List Frame) : Type 0 where
  pub skipped : List Frame
  pub are_passed : ArePassed judged skipped
  pub order : frames ≡ skipped ++ frame river2_frame_data payload ∷ later

-- The next frame of a type
abbrev OfSome : (List ℕ → List Frame → Type 0) → Option (List ℕ × List Frame) → Type 0
OfSome Q none = Unit
OfSome Q (some (payload, later)) = Q payload later

OfSome-map :
    {P Q : List ℕ → List Frame → Type 0}
    → ((payload : List ℕ) (later : List Frame) → P payload later → Q payload later)
    → (o : Option (List ℕ × List Frame)) → OfSome P o
    → OfSome Q o
OfSome-map f none h = tt
OfSome-map f (some (payload, later)) h = f payload later h

not_same : (a b : ℕ) → (a == b) ≡ false → a ≢ b
not_same a b e same = let equal : (a == b) ≡ true = (==_iff a b).1 same in cc

Took-step :
    (want : ℕ) (f : Frame) (frames : List Frame) (wanted : Bool)
    → (f.frame_type == want) ≡ wanted
    → OfSome (Took want frames) (next want frames)
    → OfSome
        (Took want (f ∷ frames))
        (if wanted then some (f.payload, frames) else next want frames)
Took-step want f frames true e rest = record {
  skipped = [];
  are_other = tt;
  order = ap (λ (t : ℕ). frame t f.payload ∷ frames) ((==_iff f.frame_type want).0 e);
}
Took-step want f frames false e rest =
    OfSome-map
      (λ payload later took. record {
        skipped = f ∷ took.skipped;
        are_other = (not_same f.frame_type want e, took.are_other);
        order = ap (◌∷◌ f) took.order;
      })
      (next want frames) rest

next-Took : (want : ℕ) (frames : List Frame) → OfSome (Took want frames) (next want frames)
unfolding next
next-Took want [] = tt
next-Took want (f ∷ frames) =
    Took-step want f frames (f.frame_type == want) refl (next-Took want frames)

received-Took :
    (Q : List ℕ → List Frame → Type 0) (sent : List (List ℕ)) (o : Option (List ℕ × List Frame))
    → OfSome Q o
    → OfOk Q (received sent o)
unfolding received
received-Took Q sent none h = tt
received-Took Q sent (some (payload, later)) h = h

pub receive_frame-Took :
    {frames : List Frame} (want : ℕ) → Hears frames (Took want frames) (receive_frame want)
unfolding receive_frame
receive_frame-Took {frames = frames} want = record {
  at = λ sent. received-Took (Took want frames) sent (next want frames) (next-Took want frames);
}

-- The reply that ends a step
abbrev pub Answers : (List ℕ → Verdict) → List Frame → List Frame → Type 0
Answers judged frames later =
    (payload : List ℕ) × (judged payload ≡ finished (ok tt)) × Settled judged frames payload later

abbrev OfDone : (List Frame → Type 0) → Result (Unit {0}) × List Frame → Type 0
OfDone Q (ok done, later) = Q later
OfDone Q (err e, later) = Unit

module _ (judged : List ℕ → Verdict) where
  -- A frame that is passed over.
  passed :
      (f : Frame) (frames : List Frame)
      → (f.frame_type ≡ river2_frame_data → judged f.payload ≡ keep_waiting)
      → (r : Result (Unit {0}) × List Frame) → OfDone (Answers judged frames) r
      → OfDone (Answers judged (f ∷ frames)) r
  passed f frames waits (ok done, later) (payload, ends, settled) = (
    payload,
    ends,
    record {
      skipped = f ∷ settled.skipped;
      are_passed = (waits, settled.are_passed);
      order = ap (◌∷◌ f) settled.order;
    },
  )
  passed f frames waits (err e, later) h = tt

  judged_step :
      (f : Frame) (frames : List Frame) (verdict : Verdict)
      → f.frame_type ≡ river2_frame_data
      → judged f.payload ≡ verdict
      → OfDone (Answers judged frames) (answered judged frames)
      → OfDone (Answers judged (f ∷ frames)) (settle verdict frames (answered judged frames))
  unfolding settle
  judged_step f frames keep_waiting data_frame e rest =
      passed f frames (λ same. e) (answered judged frames) rest
  judged_step f frames (finished (ok done)) data_frame e rest = (
    f.payload,
    e,
    record {
      skipped = [];
      are_passed = tt;
      order = ap (λ (t : ℕ). frame t f.payload ∷ frames) data_frame;
    },
  )
  judged_step f frames (finished (err code)) data_frame e rest = tt

  answered_step :
      (f : Frame) (frames : List Frame) (is_data : Bool)
      → (f.frame_type == river2_frame_data) ≡ is_data
      → OfDone (Answers judged frames) (answered judged frames)
      → OfDone (Answers judged (f ∷ frames)) (
          if is_data
          then settle (judged f.payload) frames (answered judged frames)
          else answered judged frames)
  answered_step f frames true e rest =
      judged_step f frames (judged f.payload) ((==_iff f.frame_type river2_frame_data).0 e) refl
        rest
  answered_step f frames false e rest =
      passed f frames (λ same. absurd (not_same f.frame_type river2_frame_data e same))
        (answered judged frames) rest

  answered-Answers : (frames : List Frame) → OfDone (Answers judged frames) (answered judged frames)
  unfolding answered
  answered-Answers [] = tt
  answered-Answers (f ∷ frames) =
      answered_step f frames (f.frame_type == river2_frame_data) refl (answered-Answers frames)

  done_heard :
      (frames : List Frame) (sent : List (List ℕ)) (r : Result (Unit {0}) × List Frame)
      → OfDone (Answers judged frames) r
      → OfOk
          (λ done later. Answers judged frames later)
          (r.0, record { incoming = r.1; sent = sent })
  done_heard frames sent (ok done, later) h = h
  done_heard frames sent (err e, later) h = tt

  pub receive_answer-Answers :
      {frames : List Frame}
      → Hears frames (λ done later. Answers judged frames later) (receive_answer judged)
  unfolding receive_answer
  receive_answer-Answers {frames = frames} = record {
    at = λ sent. done_heard frames sent (answered judged frames) (answered-Answers frames);
  }
