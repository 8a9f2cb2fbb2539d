-- ===== src/Transport/Subscription/Delivery.antt =====
-- What reaches the consumer of internal/transport/stream.go: the mapped frames, in order.
use mathlib.Core.Path.{subst}
use mathlib.Core.List.{append_assoc, append-nil}
use advanced_imessage_go.Prelude.{
  List, [], ◌∷◌, ◌++◌, Bool, true, false, ◌≡◌, ◌⊎◌, inl, inr, refl, sym, ap, ◌∙◌,
}
use advanced_imessage_go.Errors.Chain.{GoError, nil}
use advanced_imessage_go.Transport.Runtime.{Outcome, ok, fail}
use advanced_imessage_go.Transport.Subscription.{
  Mapped, emit, drop, failed, value, error, Pump, opening, receiving, sending, exited, Subscription,
  subscribe, close, leave, after_map, after_end, after_open, Step, Steps, open_stream,
  open_cancelled, receive, end_of_stream, break_off, yield_value, yield_last, take_error, give_up,
  end_of_events, first_range, range_again, call_close, close_returns, cancel_parent, stay, go,
}

module _ {F V : Type 0} (convert : F → Mapped V) where
  -- The events and the error that a stream of frames amounts to: mapping stops at its first error.
  unfoldable pub run_frames : List F → GoError → List V × GoError
  run_frames [] err = ([], err)
  run_frames (f ∷ frames) err =
      let rest = run_frames frames err in
      elim (convert f) [ emit v ↦ (v ∷ rest.0, rest.1) | drop ↦ rest | failed e ↦ ([], e) ]

  unfoldable pub run_source : Outcome (List F × GoError) → List V × GoError
  unfolding run_frames
  run_source (ok (frames, err)) = run_frames frames err
  run_source (fail err) = ([], err)

module _ {F V : Type 0} (convert : F → Mapped V) where
  -- The three kinds of frame.
  pub run_emit :
      (f : F) (v : V) (frames : List F) (err : GoError)
      → convert f ≡ emit v
      → run_frames convert (f ∷ frames) err
        ≡ (v ∷ (run_frames convert frames err).0, (run_frames convert frames err).1)
  unfolding run_frames
  run_emit f v frames err e = rw (e, run_frames) refl

  pub run_drop :
      (f : F) (frames : List F) (err : GoError)
      → convert f ≡ drop
      → run_frames convert (f ∷ frames) err ≡ run_frames convert frames err
  unfolding run_frames
  run_drop f frames err e = rw (e, run_frames) refl

  pub run_failed :
      (f : F) (x : GoError) (frames : List F) (err : GoError)
      → convert f ≡ failed x
      → run_frames convert (f ∷ frames) err ≡ ([], x)
  unfolding run_frames
  run_failed f x frames err e = rw (e, run_frames) refl

module _ {F V : Type 0} (convert : F → Mapped V) (source : Outcome (List F × GoError)) where
  abbrev pub all : List V × GoError
  all = run_source convert source

  abbrev pub IsPrefix : List V → Type 0
  IsPrefix yielded = (rest : List V) × (yielded ++ rest ≡ (run_source convert source).0)

  -- Everything was delivered, or the subscription was cancelled.
  abbrev pub Ended : List V → Bool → GoError → Type 0
  Ended yielded c e = ((c ≡ true) × IsPrefix yielded) ⊎ ((yielded ≡ all.0) × (e ≡ all.1))

  -- Where the pump stands, what was yielded and what is still to come make up the whole.
  abbrev pub AtPump : Pump F V → List V → Bool → Type 0
  AtPump opening yielded c = yielded ≡ []
  AtPump (receiving frames err) yielded c =
      (yielded ++ (run_frames convert frames err).0 ≡ all.0)
      × ((run_frames convert frames err).1 ≡ all.1)
  AtPump (sending (value v) next) yielded c = AtPump next (yielded ++ v ∷ []) c
  AtPump (sending (error e) next) yielded c = (next ≡ exited) × Ended yielded c e
  AtPump exited yielded c = Ended yielded c nil

  abbrev pub Delivers : Subscription F V → Type 0
  Delivers s = AtPump s.pump s.yielded s.cancelled

  Ended-IsPrefix :
      (yielded : List V) (c : Bool) (e : GoError) → Ended yielded c e → IsPrefix yielded
  Ended-IsPrefix yielded c e (inl h) = h.1
  Ended-IsPrefix yielded c e (inr h) = ([], append-nil yielded ∙ h.0)

  AtPump-IsPrefix :
      (p : Pump F V) (yielded : List V) (c : Bool) → AtPump p yielded c → IsPrefix yielded
  AtPump-IsPrefix opening yielded c h = (all.0, ap (λ l. l ++ all.0) h)
  AtPump-IsPrefix (receiving frames err) yielded c h = ((run_frames convert frames err).0, h.0)
  AtPump-IsPrefix (sending (value v) next) yielded c h =
      let (rest, e) = AtPump-IsPrefix next (yielded ++ v ∷ []) c h in
      (v ∷ rest, sym (append_assoc yielded (v ∷ []) rest) ∙ e)
  AtPump-IsPrefix (sending (error e) next) yielded c h = Ended-IsPrefix yielded c e h.1
  AtPump-IsPrefix exited yielded c h = Ended-IsPrefix yielded c nil h

  Ended-cancel :
      (yielded : List V) (c : Bool) (e : GoError) → Ended yielded c e → Ended yielded true e
  Ended-cancel yielded c e (inl h) = inl (refl, h.1)
  Ended-cancel yielded c e (inr h) = inr h

  AtPump-cancel :
      (p : Pump F V) (yielded : List V) (c : Bool) → AtPump p yielded c → AtPump p yielded true
  AtPump-cancel opening yielded c h = h
  AtPump-cancel (receiving frames err) yielded c h = h
  AtPump-cancel (sending (value v) next) yielded c h = AtPump-cancel next (yielded ++ v ∷ []) c h
  AtPump-cancel (sending (error e) next) yielded c h = (h.0, Ended-cancel yielded c e h.1)
  AtPump-cancel exited yielded c h = Ended-cancel yielded c nil h

  after_open-AtPump :
      (o : Outcome (List F × GoError)) (c : Bool) → source ≡ o → AtPump (after_open o) [] c
  unfolding after_open run_source
  after_open-AtPump (ok (frames, err)) c h =
      (ap (λ o. (run_source convert o).0) (sym h), ap (λ o. (run_source convert o).1) (sym h))
  after_open-AtPump (fail err) c h = (
    refl,
    inr (ap (λ o. (run_source convert o).0) (sym h), ap (λ o. (run_source convert o).1) (sym h)),
  )

  after_end-AtPump :
      (err : GoError) (yielded : List V) (c : Bool)
      → Ended yielded c err
      → AtPump (after_end err) yielded c
  unfolding after_end
  after_end-AtPump nil yielded c h = h
  after_end-AtPump _ yielded c h = (refl, h)

  run_end :
      (yielded : List V) (err : GoError)
      → AtPump (receiving [] err) yielded true
      → (yielded ≡ all.0) × (err ≡ all.1)
  unfolding run_frames
  run_end yielded err h = (sym (append-nil yielded) ∙ h.0, h.1)

  uncancelled : (c : Bool) → c ≡ false → c ≡ true → ⊥
  uncancelled c h k = absurd cc

  after_map-AtPump :
      (f : F) (frames : List F) (err : GoError) (yielded : List V) (c : Bool)
      → AtPump (receiving (f ∷ frames) err) yielded c
      → AtPump (after_map (convert f) frames err) yielded c
  unfolding run_frames after_map
  after_map-AtPump f frames err yielded c h = mapped (convert f) refl h
    where
      mapped :
          (m : Mapped V)
          → convert f ≡ m
          → (yielded ++ (run_frames convert (f ∷ frames) err).0 ≡ all.0)
            × ((run_frames convert (f ∷ frames) err).1 ≡ all.1)
          → AtPump (after_map m frames err) yielded c
      mapped (emit v) e h' =
          let same = run_emit convert f v frames err e in
          (
            append_assoc yielded (v ∷ []) (run_frames convert frames err).0
                ∙ (ap (λ r. yielded ++ r.0) (sym same) ∙ h'.0),
            ap (λ r. r.1) (sym same) ∙ h'.1,
          )
      mapped drop e h' =
          let same = run_drop convert f frames err e in
          (ap (λ r. yielded ++ r.0) (sym same) ∙ h'.0, ap (λ r. r.1) (sym same) ∙ h'.1)
      mapped (failed x) e h' =
          let same = run_failed convert f x frames err e in
          (
            refl,
            inr (
              sym (append-nil yielded) ∙ (ap (λ r. yielded ++ r.0) (sym same) ∙ h'.0),
              ap (λ r. r.1) (sym same) ∙ h'.1,
            ),
          )

  -- A step of the pump keeps what is delivered.
  moved :
      (s : Subscription F V) {p : Pump F V} (next : Pump F V)
      → s.pump ≡ p
      → (AtPump p s.yielded s.cancelled → AtPump next s.yielded s.cancelled)
      → Delivers s
      → Delivers (record s { pump = next })
  moved s next h f d = f (subst (λ p. AtPump p s.yielded s.cancelled) h d)

  -- What the pump is at, given that it is at `p`.
  at :
      (s : Subscription F V) {p : Pump F V}
      → s.pump ≡ p
      → Delivers s
      → AtPump p s.yielded s.cancelled
  at s h d = subst (λ p. AtPump p s.yielded s.cancelled) h d

  Step-Delivers : {s t : Subscription F V} → Step convert source s t → Delivers s → Delivers t
  unfolding leave close
  Step-Delivers (open_stream s h) d =
      moved s (after_open source) h
        (λ e.
          subst (λ y. AtPump (after_open source) y s.cancelled) (sym e)
            (after_open-AtPump source s.cancelled refl))
        d
  Step-Delivers (open_cancelled s e h c) d =
      let p = AtPump-IsPrefix opening s.yielded s.cancelled (at s h d) in (refl, inl (c, p))
  Step-Delivers (receive s f frames err h) d =
      moved s (after_map (convert f) frames err) h
        (after_map-AtPump f frames err s.yielded s.cancelled) d
  Step-Delivers (end_of_stream s err h) d =
      moved s (after_end err) h
        (λ e. after_end-AtPump err s.yielded s.cancelled (inr (run_end s.yielded err e))) d
  Step-Delivers (break_off s frames err e h c) d =
      after_end-AtPump e s.yielded s.cancelled
        (inl (c, AtPump-IsPrefix (receiving frames err) s.yielded s.cancelled (at s h d)))
  Step-Delivers (yield_value s v next h r) d = at s h d
  Step-Delivers (yield_last s v next h r) d =
      AtPump-cancel next (s.yielded ++ v ∷ []) s.cancelled (at s h d)
  Step-Delivers (take_error s e next h r) d =
      let (gone, ended) = at s h d in
      subst (λ p. AtPump p s.yielded true) (sym gone)
        (inl (refl, Ended-IsPrefix s.yielded s.cancelled e ended))
  Step-Delivers (give_up s r next h c) d =
      inl (c, AtPump-IsPrefix (sending r next) s.yielded s.cancelled (at s h d))
  Step-Delivers (end_of_events s h r) d = AtPump-cancel s.pump s.yielded s.cancelled d
  Step-Delivers (first_range s c) d = d
  Step-Delivers (range_again s c) d = d
  Step-Delivers (call_close s) d = AtPump-cancel s.pump s.yielded s.cancelled d
  Step-Delivers (close_returns s c h) d = d
  Step-Delivers (cancel_parent s) d = AtPump-cancel s.pump s.yielded s.cancelled d

  pub Steps-Delivers : {s t : Subscription F V} → Steps convert source s t → Delivers s → Delivers t
  Steps-Delivers (stay s) d = d
  Steps-Delivers (go steps step) d = Step-Delivers step (Steps-Delivers steps d)

  -- In every interleaving, what the consumer has got is a prefix of the events of the stream, in
  -- order and without repetition.
  pub Steps-IsPrefix :
      {s : Subscription F V} → Steps convert source subscribe s → IsPrefix s.yielded
  Steps-IsPrefix {s} steps =
      AtPump-IsPrefix s.pump s.yielded s.cancelled (Steps-Delivers steps refl)

  -- If the goroutine has exited and nothing was cancelled, the consumer has got every event of the
  -- stream, and the stream ended without an error.
  pub Steps-deliver_all :
      {s : Subscription F V}
      → Steps convert source subscribe s
      → s.pump ≡ exited
      → s.cancelled ≡ false
      → (s.yielded ≡ (run_source convert source).0) × (nil ≡ (run_source convert source).1)
  Steps-deliver_all {s} steps h c = elim (at s h (Steps-Delivers steps refl)) [
    | inl e ↦ absurd (uncancelled s.cancelled c e.0)
    | inr e ↦ e
  ]
