-- ===== src/Ble/Queue.antt =====
-- The queue between NimBLE's callback and the task that waits: a bounded queue, first in first out,
-- whose items a small buffer cuts.
use embed_beetroot_hw_2_7_pr.Prelude.{
  ℕ, zero, suc, ◌+◌, ◌≤◌, ◌≡◌, refl, sym, ap, ap₂, ◌∙◌, arith, subst, Bool, true, false, not,
  Bool-cases, inl, inr, Option, none, some, List, [], ◌∷◌, ◌++◌, map, append_assoc, append-nil, ltb,
  ◌==◌, if◌then◌else◌, length, length-append, take, Result, ok, err,
}
use embed_beetroot_hw_2_7_pr.Ble.{Ble, queue_length, on_notify_rx}
use embed_beetroot_hw_2_7_pr.Ble.Calls.{
  queue_receive, wait_notification, river2_ble_wait_notification,
}

-- A packet of `len` bytes arrives, or a task takes a chunk with a buffer of `out_cap` bytes.
pub data QueueEvent : Type 0 where
  arrives : (memory : Bool) (len : ℕ) (flat : Option (List ℕ)) → QueueEvent
  takes : QueueEvent

-- What the tasks are given, and the state after the events.
abbrev pub run : ℕ → List QueueEvent → Ble → List (Result (List ℕ)) × Ble
run out_cap [] s = ([], s)
run out_cap (arrives memory len flat ∷ events) s =
    run out_cap events (on_notify_rx memory len flat s)
run out_cap (takes ∷ events) s =
    let (r, s1) = river2_ble_wait_notification out_cap s in
    let (rs, s2) = run out_cap events s1 in (r ∷ rs, s2)

-- What an event offers to the queue: a packet that is not empty and could be copied.
abbrev pub offers : QueueEvent → Option (List ℕ)
offers (arrives memory len flat) = if len == 0 then none else if memory then flat else none
offers takes = none

abbrev pub offered : List QueueEvent → List (List ℕ)
offered [] = []
offered (event ∷ events) = elim (offers event) [
  | none ↦ offered events
  | some chunk ↦ chunk ∷ offered events
]

abbrev pub delivered : List (Result (List ℕ)) → List (List ℕ)
delivered [] = []
delivered (ok chunk ∷ rs) = chunk ∷ delivered rs
delivered (err e ∷ rs) = delivered rs

-- The first list is the second without some items.
pub data Keeps : List (List ℕ) → List (List ℕ) → Type 0 where
  keeps_none : Keeps [] []
  keeps : {xs ys : List (List ℕ)} (x : List ℕ) → Keeps xs ys → Keeps (x ∷ xs) (x ∷ ys)
  loses : {xs ys : List (List ℕ)} (y : List ℕ) → Keeps xs ys → Keeps xs (y ∷ ys)

-- The queue before and after, what was offered to it and what the tasks were given.
pub record IsFifo (out_cap : ℕ) (before after given : List (List ℕ)) (rs : List (Result (List ℕ)))
    : Type 0 where
  pub kept : List (List ℕ)
  pub popped : List (List ℕ)
  pub keeps_order : Keeps kept given
  pub order : before ++ kept ≡ popped ++ after
  pub cut : delivered rs ≡ map (take out_cap) popped
  pub bounded : length before ≤ queue_length → length after ≤ queue_length
  pub lossless : length before + length given ≤ queue_length → kept ≡ given

take_enough : (n : ℕ) (xs : List ℕ) → length xs ≤ n → take n xs ≡ xs
take_enough zero [] h = refl
take_enough zero (x ∷ xs) h = absurd (omega arith)
take_enough (suc n) [] h = refl
take_enough (suc n) (x ∷ xs) h = ap (λ l. x ∷ l) (take_enough n xs (omega arith))

cut_take :
    (out_cap : ℕ) (chunk : List ℕ)
    → wait_notification (some chunk) out_cap ≡ ok (take out_cap chunk)
unfolding wait_notification
cut_take out_cap chunk = elim (Bool-cases (ltb (length chunk) out_cap)) [
  | inl short ↦ rw short (
      ap ok (
        take_enough (length chunk) chunk (omega arith)
        ∙ sym (take_enough out_cap chunk (ground (arith, short)))))
  | inr long ↦ rw long refl
]

push : Option (List ℕ) → Ble → Ble
push none s = s
push (some chunk) s =
    if ltb (length s.queue) queue_length then record s { queue = s.queue ++ chunk ∷ [] } else s

copied :
    (memory : Bool) (flat : Option (List ℕ)) (s : Ble)
    → (if not memory then s else elim flat [
      | none ↦ s
      | some chunk ↦
          if ltb (length s.queue) queue_length
          then record s { queue = s.queue ++ chunk ∷ [] }
          else s
    ])
      ≡ push (if memory then flat else none) s
unfolding push
copied false flat s = refl
copied true none s = refl
copied true (some chunk) s = refl

rx-push :
    (memory : Bool) (len : ℕ) (flat : Option (List ℕ)) (s : Ble)
    → on_notify_rx memory len flat s ≡ push (offers (arrives memory len flat)) s
unfolding on_notify_rx push
rx-push memory len flat s = elim (Bool-cases (len == 0)) [
  | inl empty ↦ rw empty refl
  | inr some_bytes ↦ rw some_bytes (copied memory flat s)
]

module _ (out_cap : ℕ) (events : List QueueEvent) where
  abbrev Fifo : Ble → List (List ℕ) → Type 0
  Fifo s given = let (rs, s') = run out_cap events s in IsFifo out_cap s.queue s'.queue given rs

  -- A chunk is put at the end, or lost when the queue is full.
  push-IsFifo :
      (o : Option (List ℕ)) (s : Ble)
      → ((t : Ble) → Fifo t (offered events))
      → (let (rs, s') = run out_cap events (push o s) in
          IsFifo out_cap s.queue s'.queue
            (elim o [ none ↦ offered events | some chunk ↦ chunk ∷ offered events ])
            rs)
  unfolding push
  push-IsFifo none s ih = ih s
  push-IsFifo (some chunk) s ih = elim (Bool-cases (ltb (length s.queue) queue_length)) [
    | inl room ↦
        let f = ih (record s { queue = s.queue ++ chunk ∷ [] }) in
        let grown = length-append s.queue (chunk ∷ []) in
        rw room (record {
          kept = chunk ∷ f.kept;
          popped = f.popped;
          keeps_order = keeps chunk f.keeps_order;
          order = sym (append_assoc s.queue (chunk ∷ []) f.kept) ∙ f.order;
          cut = f.cut;
          bounded = λ h. f.bounded (ground (arith, grown, room));
          lossless = λ h. ap (λ l. chunk ∷ l) (f.lossless (omega (arith, grown, h)));
        })
    | inr full ↦
        let f = ih s in
        rw full (record {
          kept = f.kept;
          popped = f.popped;
          keeps_order = loses chunk f.keeps_order;
          order = f.order;
          cut = f.cut;
          bounded = f.bounded;
          lossless = λ h. absurd (ground (arith, full, h));
        })
  ]

  abbrev pop : List (List ℕ) → Ble → Option (List ℕ) × Ble
  pop queue s = elim queue [
    | [] ↦ (none, s)
    | chunk ∷ rest ↦ (some chunk, record s { queue = rest })
  ]

  abbrev Given : List (List ℕ) → Option (List ℕ) × Ble → Type 0
  Given queue (received, s) =
      let (rs, s') = run out_cap events s in
      IsFifo out_cap queue s'.queue (offered events) (wait_notification received out_cap ∷ rs)

  -- The first chunk is taken, if there is one.
  pop-Given :
      (queue : List (List ℕ)) (s : Ble)
      → s.queue ≡ queue
      → ((t : Ble) → Fifo t (offered events))
      → Given queue (pop queue s)
  unfolding wait_notification
  pop-Given [] s same ih =
      let (rs, s') = run out_cap events s in
      let f : IsFifo out_cap [] s'.queue (offered events) rs =
        subst (λ q. IsFifo out_cap q s'.queue (offered events) rs) same (ih s) in
      record {
        kept = f.kept;
        popped = f.popped;
        keeps_order = f.keeps_order;
        order = f.order;
        cut = f.cut;
        bounded = f.bounded;
        lossless = f.lossless;
      }
  pop-Given (chunk ∷ rest) s same ih =
      let f = ih (record s { queue = rest }) in
      record {
        kept = f.kept;
        popped = chunk ∷ f.popped;
        keeps_order = f.keeps_order;
        order = ap (λ l. chunk ∷ l) f.order;
        cut = ap₂ (λ r l. delivered (r ∷ []) ++ l) (cut_take out_cap chunk) f.cut;
        bounded = λ h. f.bounded (omega (arith, h));
        lossless = λ h. f.lossless (omega (arith, h));
      }

  take-IsFifo :
      (s : Ble)
      → ((t : Ble) → Fifo t (offered events))
      → (let (rs, s') = run out_cap (takes ∷ events) s in
          IsFifo out_cap s.queue s'.queue (offered events) rs)
  unfolding river2_ble_wait_notification queue_receive
  take-IsFifo s ih = pop-Given s.queue s refl ih

-- Whatever arrives, and whenever the tasks take something, waits that run out included: they are
-- given, in order and each cut to the size of their buffer, the first of the chunks that were in
-- the queue and of those that it kept of what was offered; the others are in the queue, which never
-- holds more than its length; and no chunk is lost while all of them would fit.
pub run-IsFifo :
    (out_cap : ℕ) (events : List QueueEvent) (s : Ble)
    → (let (rs, s') = run out_cap events s in IsFifo out_cap s.queue s'.queue (offered events) rs)
run-IsFifo out_cap [] s = record {
  kept = [];
  popped = [];
  keeps_order = keeps_none;
  order = append-nil s.queue;
  cut = refl;
  bounded = λ h. h;
  lossless = λ h. refl;
}
run-IsFifo out_cap (arrives memory len flat ∷ events) s =
    subst
      (λ t.
        let (rs, s') = run out_cap events t in
        IsFifo out_cap s.queue s'.queue (offered (arrives memory len flat ∷ events)) rs)
      (sym (rx-push memory len flat s))
      (push-IsFifo out_cap events (offers (arrives memory len flat)) s (run-IsFifo out_cap events))
run-IsFifo out_cap (takes ∷ events) s = take-IsFifo out_cap events s (run-IsFifo out_cap events)
