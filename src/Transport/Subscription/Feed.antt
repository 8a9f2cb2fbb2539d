-- ===== src/Transport/Subscription/Feed.antt =====
-- What internal/transport/stream.go promises, without its goroutine and its channel: a feed of the
-- events of the stream, and that every run of a subscription is one of the feed.
use mathlib.Core.Path.{subst}
use advanced_imessage_go.Prelude.{List, [], ◌∷◌, ◌++◌, Bool, true, false, ◌≡◌, refl, sym, ap, ◌∙◌}
use advanced_imessage_go.Errors.Chain.{GoError, nil}
use advanced_imessage_go.Transport.Runtime.{Outcome, ok, fail}
use advanced_imessage_go.Transport.Subscription.{
  Mapped, emit, drop, failed, value, error, Pump, opening, receiving, sending, exited, Subscription,
  subscribe, err_already_consumed, set_err, close, leave, after_map, after_end, after_open, Step,
  Steps, open_stream, open_cancelled, receive, end_of_stream, break_off, yield_value, yield_last,
  take_error, give_up, end_of_events, first_range, range_again, call_close, close_returns,
  cancel_parent, stay, go,
}
use advanced_imessage_go.Transport.Subscription.Delivery.{
  run_frames, run_source, run_emit, run_drop, run_failed,
}

-- The events that the consumer has got and those to come, the error at their end, and what `Err`
-- gives.
pub record Feed (V : Type 0) : Type 0 where
  pub got : List V
  pub left : List V
  pub final : GoError
  pub err : GoError
  pub cancelled : Bool

-- The specification: the next event is delivered; at the end the error of the stream is reported;
-- a cancelled feed may be cut short with any error; a second range is an error of its own.
pub data FeedStep {V : Type 0} : Feed V → Feed V → Type 0 where
  hand_over :
      (f : Feed V) (v : V) (vs : List V)
      → f.left ≡ v ∷ vs
      → FeedStep f (record f { got = f.got ++ v ∷ []; left = vs })
  report :
      (f : Feed V)
      → f.left ≡ []
      → FeedStep f (record f { err = set_err f.err f.final; final = nil })
  cut :
      (f : Feed V) (e : GoError)
      → f.cancelled ≡ true
      → FeedStep f (record f { left = []; final = e })
  misuse : (f : Feed V) → FeedStep f (record f { err = set_err f.err err_already_consumed })
  cancel : (f : Feed V) → FeedStep f (record f { cancelled = true })

pub data FeedSteps {V : Type 0} : Feed V → Feed V → Type 0 where
  done : (f : Feed V) → FeedSteps f f
  more : {f g h : Feed V} → FeedSteps f g → FeedStep g h → FeedSteps f h

abbrev pub feed_of : {V : Type 0} → List V × GoError → Feed V
feed_of (events, err) = record {
  got = [];
  left = events;
  final = err;
  err = nil;
  cancelled = false;
}

module _ {F V : Type 0} (convert : F → Mapped V) (source : Outcome (List F × GoError)) where
  -- The events and the error that a goroutine has yet to hand over.
  abbrev pub pending : Pump F V → List V × GoError
  pending opening = run_source convert source
  pending (receiving frames err) = run_frames convert frames err
  pending (sending (value v) next) = (v ∷ (pending next).0, (pending next).1)
  pending (sending (error e) next) = ([], e)
  pending exited = ([], nil)

  abbrev pub feed : Subscription F V → Feed V
  feed s = record {
    got = s.yielded;
    left = (pending s.pump).0;
    final = (pending s.pump).1;
    err = s.err;
    cancelled = s.cancelled;
  }

  after_open-pending :
      (o : Outcome (List F × GoError)) → pending (after_open o) ≡ run_source convert o
  unfolding after_open run_source
  after_open-pending (ok (frames, err)) = refl
  after_open-pending (fail err) = refl

  after_end-pending : (err : GoError) → pending (after_end err) ≡ ([], err)
  unfolding after_end
  after_end-pending nil = refl
  after_end-pending _ = refl

  after_map-pending :
      (f : F) (frames : List F) (err : GoError)
      → pending (after_map (convert f) frames err) ≡ run_frames convert (f ∷ frames) err
  unfolding after_map
  after_map-pending f frames err = mapped (convert f) refl
    where
      mapped :
          (m : Mapped V)
          → convert f ≡ m
          → pending (after_map m frames err) ≡ run_frames convert (f ∷ frames) err
      mapped (emit v) e = sym (run_emit convert f v frames err e)
      mapped drop e = sym (run_drop convert f frames err e)
      mapped (failed x) e = sym (run_failed convert f x frames err e)

  -- Nothing follows an error.
  abbrev IsLast : Pump F V → Type 0
  IsLast (sending (error e) next) = next ≡ exited
  IsLast (sending (value v) next) = IsLast next
  IsLast _ = Unit

  reach : {f g h : Feed V} → FeedSteps f g → g ≡ h → FeedSteps f h
  reach {f} steps e = subst (λ x. FeedSteps f x) e steps

  -- The feed of `s` with what is pending replaced.
  abbrev with_pending : Subscription F V → List V × GoError → Feed V
  with_pending s r = record (feed s) { left = r.0; final = r.1 }

  stutter :
      (s : Subscription F V) (next : Pump F V)
      → pending s.pump ≡ pending next
      → FeedSteps (feed s) (feed (record s { pump = next }))
  stutter s next e = reach (done (feed s)) (ap (with_pending s) e)

  cut_off :
      (s : Subscription F V) (next : Pump F V) (e : GoError)
      → s.cancelled ≡ true
      → pending next ≡ ([], e)
      → FeedSteps (feed s) (feed (record s { pump = next }))
  cut_off s next e c h =
      reach (more (done (feed s)) (cut (feed s) e c)) (ap (with_pending s) (sym h))

  delivered :
      (s : Subscription F V) (v : V) (next : Pump F V)
      → s.pump ≡ sending (value v) next
      → FeedSteps (feed s) (feed (record s { pump = next; yielded = s.yielded ++ v ∷ [] }))
  delivered s v next h =
      reach
        (more (done (feed s)) (hand_over (feed s) v (pending next).0 (ap (λ p. (pending p).0) h)))
        (ap (λ e. record (feed s) { got = s.yielded ++ v ∷ []; left = (pending next).0; final = e })
          (ap (λ p. (pending p).1) h))

  reported :
      (s : Subscription F V) (e : GoError) (next : Pump F V)
      → s.pump ≡ sending (error e) next
      → next ≡ exited
      → FeedSteps (feed s) (feed (leave (record s { pump = next; err = set_err s.err e })))
  unfolding leave close
  reported s e next h last =
      let now : pending s.pump ≡ ([], e) = ap pending h in
      let later : pending next ≡ ([], nil) = ap pending last in
      reach (more (more (done (feed s)) (report (feed s) (ap (λ p. (pending p).0) h))) (cancel _)) (
        ap
          (λ (r : (List V × GoError) × GoError). record (feed s) {
            left = r.0.0;
            final = r.0.1;
            err = set_err s.err r.1;
            cancelled = true;
          })
          (cc))

  abbrev Simulates : Subscription F V → Subscription F V → Type 0
  Simulates s t = FeedSteps (feed s) (feed t) × IsLast t.pump

  IsLast-at : (s : Subscription F V) {p : Pump F V} → s.pump ≡ p → IsLast s.pump → IsLast p
  IsLast-at s h l = subst IsLast h l

  after_open-IsLast : (o : Outcome (List F × GoError)) → IsLast (after_open o)
  unfolding after_open
  after_open-IsLast (ok (frames, err)) = tt
  after_open-IsLast (fail err) = refl

  after_end-IsLast : (err : GoError) → IsLast (after_end err)
  unfolding after_end
  after_end-IsLast nil = tt
  after_end-IsLast _ = refl

  after_map-IsLast :
      (m : Mapped V) (frames : List F) (err : GoError) → IsLast (after_map m frames err)
  unfolding after_map
  after_map-IsLast (emit v) frames err = tt
  after_map-IsLast drop frames err = tt
  after_map-IsLast (failed e) frames err = refl

  Step-Simulates :
      {s t : Subscription F V} → Step convert source s t → IsLast s.pump → Simulates s t
  unfolding leave close run_frames
  Step-Simulates (open_stream s h) l = (
    stutter s (after_open source) (ap pending h ∙ sym (after_open-pending source)),
    after_open-IsLast source,
  )
  Step-Simulates (open_cancelled s e h c) l = (cut_off s (sending (error e) exited) e c refl, refl)
  Step-Simulates (receive s f frames err h) l = (
    stutter s (after_map (convert f) frames err)
        (ap pending h ∙ sym (after_map-pending f frames err)),
    after_map-IsLast (convert f) frames err,
  )
  Step-Simulates (end_of_stream s err h) l =
      (stutter s (after_end err) (ap pending h ∙ sym (after_end-pending err)), after_end-IsLast err)
  Step-Simulates (break_off s frames err e h c) l =
      (cut_off s (after_end e) e c (after_end-pending e), after_end-IsLast e)
  Step-Simulates (yield_value s v next h r) l = (delivered s v next h, IsLast-at s h l)
  Step-Simulates (yield_last s v next h r) l =
      (more (delivered s v next h) (cancel _), IsLast-at s h l)
  Step-Simulates (take_error s e next h r) l =
      let gone = IsLast-at s h l in (reported s e next h gone, subst IsLast (sym gone) tt)
  Step-Simulates (give_up s r next h c) l = (cut_off s exited nil c refl, tt)
  Step-Simulates (end_of_events s h r) l = (more (done (feed s)) (cancel (feed s)), l)
  Step-Simulates (first_range s c) l = (done (feed s), l)
  Step-Simulates (range_again s c) l = (more (done (feed s)) (misuse (feed s)), l)
  Step-Simulates (call_close s) l = (more (done (feed s)) (cancel (feed s)), l)
  Step-Simulates (close_returns s c h) l = (done (feed s), l)
  Step-Simulates (cancel_parent s) l = (more (done (feed s)) (cancel (feed s)), l)

  FeedSteps-append : {f g h : Feed V} → FeedSteps f g → FeedSteps g h → FeedSteps f h
  FeedSteps-append a (done g) = a
  FeedSteps-append a (more b step) = more (FeedSteps-append a b) step

  Steps-Simulates :
      {s t : Subscription F V} → Steps convert source s t → IsLast s.pump → Simulates s t
  Steps-Simulates (stay s) l = (done (feed s), l)
  Steps-Simulates (go steps step) l =
      let (before, l') = Steps-Simulates steps l in
      let (after, l'') = Step-Simulates step l' in (FeedSteps-append before after, l'')

  -- A subscription refines the feed: whatever its goroutine, the consumer, `Close` and the context
  -- do, and in whatever order, the run is a run of the feed of the stream's events.
  pub Steps-refine :
      {s : Subscription F V}
      → Steps convert source subscribe s
      → FeedSteps (feed_of (run_source convert source)) (feed s)
  Steps-refine steps = (Steps-Simulates steps tt).0
