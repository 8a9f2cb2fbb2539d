-- ===== src/Resumable/Coverage.antt =====
-- Whether resumable.go can lose a message: how far the cursor may run ahead of what was sent.
use advanced_imessage_go.Prelude.{
  ℕ, ◌≤◌, ◌<◌, ◌≡◌, ◌⊎◌, inl, inr, refl, arith, List, [], ◌∷◌, ◌++◌, false, All, All-append,
  All-imp, ltb, Bool-cases,
}
use advanced_imessage_go.Errors.Chain.{canceled}
use advanced_imessage_go.Model.Events.{MessageEvent, CatchUpEvent, message_event, catchup_complete}
use advanced_imessage_go.Resumable.{
  Settings, Environment, Engine, Flow, go_on, return, message_event_meta, save_cursor, advance,
  try_send, deliver, is_skipped,
}

abbrev pub sequence_of : MessageEvent → ℕ
sequence_of ev = (message_event_meta ev).1

abbrev pub In : MessageEvent → List MessageEvent → Type 0
In e [] = ⊥
In e (x ∷ xs) = (e ≡ x) ⊎ In e xs

In-left : (e : MessageEvent) (xs ys : List MessageEvent) → In e xs → In e (xs ++ ys)
In-left e [] ys h = absurd h
In-left e (x ∷ xs) ys (inl h) = inl h
In-left e (x ∷ xs) ys (inr h) = inr (In-left e xs ys h)

In-last : (e ev : MessageEvent) (xs : List MessageEvent) → e ≡ ev → In e (xs ++ ev ∷ [])
In-last e ev [] h = inl h
In-last e ev (x ∷ xs) h = inr (In-last e ev xs h)

-- How `deliver` can end: the consumer took the event, and the cursor is that of the event; or
-- nothing but the surroundings changed.
record Delivered {T : Type 0} (ev : MessageEvent) (s : Engine T) (r : Flow × Engine T)
    : Type 0 where
  after : Engine T
  equal : r ≡ (go_on, after)
  sent : after.sent ≡ s.sent ++ ev ∷ []
  cursor : after.cursor ≡ sequence_of ev
  saved : (after.saved ≡ s.saved) ⊎ (after.saved ≡ s.saved ++ sequence_of ev ∷ [])

record Refused {T : Type 0} (s : Engine T) (r : Flow × Engine T) : Type 0 where
  after : Engine T
  equal : r ≡ (return canceled, after)
  sent : after.sent ≡ s.sent
  cursor : after.cursor ≡ s.cursor
  saved : after.saved ≡ s.saved

deliver_outcome :
    {T : Type 0} (env : Environment T) (settings : Settings) (ev : MessageEvent) (s : Engine T)
    → 0 < sequence_of ev
    → Delivered ev s (deliver env settings ev s) ⊎ Refused s (deliver env settings ev s)
unfolding deliver try_send advance save_cursor
deliver_outcome env settings ev s h = elim (Bool-cases (env.accepts ev s.world).0) [
  | inl a ↦ inl (record {
    after = (deliver env settings ev s).1;
    equal = ground arith;
    sent = ground arith;
    cursor = ground arith;
    saved = ground arith;
  })
  | inr a ↦ inr (record {
    after = (deliver env settings ev s).1;
    equal = ground arith;
    sent = ground arith;
    cursor = ground arith;
    saved = ground arith;
  })
]

-- Cursors saved later are bounded if the one that was added is.
pub grown :
    (after before : List ℕ) (n m : ℕ)
    → (after ≡ before) ⊎ (after ≡ before ++ n ∷ [])
    → n ≤ m
    → All (λ k. k ≤ m) before
    → All (λ k. k ≤ m) after
grown after before n m (inl e) h all = rw e all
grown after before n m (inr e) h all = rw e (All-append (λ k. k ≤ m) before (n ∷ []) all (h, tt))

-- Every cursor that is at most `m` is at most a later `m'`.
pub All-le : (m m' : ℕ) (saved : List ℕ) → m ≤ m' → All (λ n. n ≤ m) saved → All (λ n. n ≤ m') saved
All-le m m' saved h all = All-imp (λ n. n ≤ m) (λ n. n ≤ m') saved (λ n k. omega arith) all

-- `Logged` holds of the message events that the server has.
module _ {T : Type 0} (env : Environment T) (settings : Settings)
    (Logged : MessageEvent → Type 0) where
  -- An event of the log that the subscription is for.
  abbrev pub Wanted : MessageEvent → Type 0
  Wanted e = Logged e × (is_skipped env settings e ≡ false)

  -- `ev` is the next event after the position `p`: it is later, and no other is in between.
  abbrev pub IsNext : ℕ → MessageEvent → Type 0
  IsNext p ev =
      (p < sequence_of ev)
      × ((e : MessageEvent)
          → Wanted e
          → p < sequence_of e
          → sequence_of e ≤ sequence_of ev
          → e ≡ ev)

  -- A catch-up stream from the position `p` leaves no event out, also not before its completion.
  abbrev pub Replays : ℕ → List CatchUpEvent → Type 0
  Replays p [] = Unit
  Replays p (message_event ev ∷ events) = IsNext p ev × Replays (sequence_of ev) events
  Replays p (catchup_complete e ∷ events) =
      (ev : MessageEvent) → Wanted ev → p < sequence_of ev → e.head_sequence < sequence_of ev
  Replays p (_ ∷ events) = Replays p events

  -- A live stream from the position `p` leaves no event out.
  abbrev pub Follows : ℕ → List MessageEvent → Type 0
  Follows p [] = Unit
  Follows p (ev ∷ events) = IsNext p ev × Follows (sequence_of ev) events

-- `first` is the cursor that the engine starts from.
module _ {T : Type 0} (env : Environment T) (settings : Settings) (Logged : MessageEvent → Type 0)
    (first : ℕ) where
  -- Every wanted event after the first cursor and up to `m` was sent.
  abbrev pub Covers : List MessageEvent → ℕ → Type 0
  Covers sent m =
      (e : MessageEvent)
      → Wanted env settings Logged e
      → first < sequence_of e
      → sequence_of e ≤ m
      → In e sent

  -- The events up to `m` were sent, and no cursor is beyond `m`.
  abbrev pub IsCovered : Engine T → ℕ → Type 0
  IsCovered s m = Covers s.sent m × (s.cursor ≤ m) × All (λ n. n ≤ m) s.saved

  abbrev pub Kept : ℕ → ℕ → Flow × Engine T → Type 0
  Kept m n (go_on, s) = (m' : ℕ) × (m ≤ m') × (n ≤ m') × IsCovered s m'
  Kept m n (return e, s) = (e ≡ canceled) × IsCovered s m

  Covers-extend :
      (sent : List MessageEvent) (m p : ℕ) (ev : MessageEvent)
      → p ≤ m
      → IsNext env settings Logged p ev
      → Covers sent m
      → (m' : ℕ) → m' ≤ m ⊎ (m' ≤ sequence_of ev)
      → Covers (sent ++ ev ∷ []) m'
  Covers-extend sent m p ev le next covers m' bound e w after upto =
      elim (Bool-cases (ltb m (sequence_of e))) [
        | inl b ↦
            In-last e ev sent (
              next.1 e w (ground arith) (elim bound [ inl k ↦ ground arith | inr k ↦ omega arith ]))
        | inr b ↦ In-left e sent (ev ∷ []) (covers e w after (ground arith))
      ]

  pub deliver-Kept :
      (ev : MessageEvent) (s : Engine T) (m p : ℕ)
      → p ≤ m
      → IsNext env settings Logged p ev
      → IsCovered s m
      → Kept m (sequence_of ev) (deliver env settings ev s)
  deliver-Kept ev s m p le next (covers, low, saved) =
      elim (deliver_outcome env settings ev s (omega (arith, next.0))) [
        | inl o ↦ rw o.equal (elim (Bool-cases (ltb m (sequence_of ev))) [
          | inl b ↦ (
            sequence_of ev,
            ground arith,
            omega arith,
            (
              rw o.sent
                  (Covers-extend s.sent m p ev le next covers (sequence_of ev) (inr (omega arith))),
              omega (arith, o.cursor),
              grown o.after.saved s.saved (sequence_of ev) (sequence_of ev) o.saved (omega arith)
                  (All-le m (sequence_of ev) s.saved (ground arith) saved),
            ),
          )
          | inr b ↦ (
            m,
            omega arith,
            ground arith,
            (
              rw o.sent (Covers-extend s.sent m p ev le next covers m (inl (omega arith))),
              ground (arith, o.cursor),
              grown o.after.saved s.saved (sequence_of ev) m o.saved (ground arith) saved,
            ),
          )
        ])
        | inr o ↦
            rw o.equal (refl, (rw o.sent covers, omega (arith, o.cursor, low), rw o.saved saved))
      ]
