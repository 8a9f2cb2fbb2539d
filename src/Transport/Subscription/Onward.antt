-- ===== src/Transport/Subscription/Onward.antt =====
-- That a consumer of internal/transport/stream.go can get the rest from wherever it stands.
use mathlib.Core.Path.{subst}
use advanced_imessage_go.Prelude.{
  List, [], ◌∷◌, ◌++◌, true, false, ◌≡◌, ◌⊎◌, inl, inr, refl, ap, ◌∙◌,
}
use advanced_imessage_go.Errors.Chain.{GoError, nil}
use advanced_imessage_go.Transport.Runtime.{Outcome}
use advanced_imessage_go.Transport.Subscription.{
  Mapped, value, error, Pump, opening, receiving, sending, exited, idle, ranging, left,
  Subscription, subscribe, set_err, close, leave, after_open, Step, Steps, open_stream,
  open_cancelled, receive, end_of_stream, break_off, yield_value, yield_last, take_error, give_up,
  end_of_events, first_range, range_again, call_close, close_returns, cancel_parent, stay, go,
}
use advanced_imessage_go.Transport.Subscription.Delivery.{run_source, AtPump, Ended, Steps-Delivers}
use advanced_imessage_go.Transport.Subscription.Progress.{Steps-then, take_all, take_source}

module _ {F V : Type 0} (convert : F → Mapped V) (source : Outcome (List F × GoError)) where
  -- Unless it is cancelled, a subscription has a consumer that has not begun or that is in its
  -- loop.
  abbrev Loops : Subscription F V → Type 0
  Loops s =
      (s.cancelled ≡ true) ⊎ (((s.consumer ≡ idle) × (s.consumed ≡ false)) ⊎ (s.consumer ≡ ranging))

  Step-Loops : {s t : Subscription F V} → Step convert source s t → Loops s → Loops t
  unfolding leave close
  Step-Loops (open_stream s h) l = l
  Step-Loops (open_cancelled s e h c) l = l
  Step-Loops (receive s f frames err h) l = l
  Step-Loops (end_of_stream s err h) l = l
  Step-Loops (break_off s frames err e h c) l = l
  Step-Loops (yield_value s v next h r) l = l
  Step-Loops (yield_last s v next h r) l = inl refl
  Step-Loops (take_error s e next h r) l = inl refl
  Step-Loops (give_up s r next h c) l = l
  Step-Loops (end_of_events s h r) l = inl refl
  Step-Loops (first_range s c) l = inr (inr refl)
  Step-Loops (range_again s c) l = l
  Step-Loops (call_close s) l = inl refl
  Step-Loops (close_returns s c h) l = l
  Step-Loops (cancel_parent s) l = inl refl

  Steps-Loops : {s t : Subscription F V} → Steps convert source s t → Loops s → Loops t
  Steps-Loops (stay s) l = l
  Steps-Loops (go steps step) l = Step-Loops step (Steps-Loops steps l)

  -- The steps from `s` to a state in which the consumer has got everything.
  abbrev pub GetsAll : Subscription F V → Type 0
  GetsAll s =
      (t : Subscription F V) × Steps convert source s t
      × (t.yielded ≡ (run_source convert source).0)
      × (t.err ≡ (run_source convert source).1)
      × (t.consumer ≡ left)

  GetsAll-after : {s u : Subscription F V} → Steps convert source s u → GetsAll u → GetsAll s
  GetsAll-after steps (t, more, got, err, over) =
      (t, Steps-then convert source steps more, got, err, over)

  uncancelled_end :
      (yielded : List V) (e : GoError)
      → Ended convert source yielded false e
      → (yielded ≡ (run_source convert source).0) × (e ≡ (run_source convert source).1)
  uncancelled_end yielded e (inl h) = absurd cc
  uncancelled_end yielded e (inr h) = h

  ranging-GetsAll :
      (p : Pump F V) (s : Subscription F V)
      → s.pump ≡ p
      → s.consumer ≡ ranging
      → s.err ≡ nil
      → AtPump convert source p s.yielded false
      → GetsAll s
  unfolding leave close set_err
  ranging-GetsAll opening s h r e d =
      GetsAll-after (go (stay s) (open_stream s h))
        (take_source convert source source (record s { pump = after_open source }) refl r e d)
  ranging-GetsAll (receiving frames err) s h r e d =
      let (t, steps, got, failed_with, over) = take_all convert source frames err s h r e in
      (t, steps, got ∙ d.0, failed_with ∙ d.1, over)
  ranging-GetsAll (sending (value v) next) s h r e d =
      GetsAll-after (go (stay s) (yield_value s v next h r))
        (ranging-GetsAll next (record s { pump = next; yielded = s.yielded ++ v ∷ [] }) refl r e d)
  ranging-GetsAll (sending (error x) next) s h r e d =
      let (got, failed_with) = uncancelled_end s.yielded x d.1 in
      (
        leave (record s { pump = next; err = set_err s.err x }),
        go (stay s) (take_error s x next h r),
        got,
        ap (λ g. set_err g x) e ∙ failed_with,
        refl,
      )
  ranging-GetsAll exited s h r e d =
      let (got, clean) = uncancelled_end s.yielded nil d in
      (leave s, go (stay s) (end_of_events s h r), got, e ∙ clean, refl)

  -- Whatever a subscription that is not cancelled and has no error has done so far, its consumer
  -- can get every event of the stream, each once and in order; its loop then ends, and the error is
  -- the one that the stream ends with.
  pub Steps-GetsAll :
      {u : Subscription F V}
      → Steps convert source subscribe u
      → u.cancelled ≡ false
      → u.err ≡ nil
      → GetsAll u
  Steps-GetsAll {u} steps running clean =
      let d =
        subst (λ c. AtPump convert source u.pump u.yielded c) running
          (Steps-Delivers convert source steps refl) in
      elim (Steps-Loops steps (inr (inl (refl, refl)))) [
        | inl c ↦ absurd cc
        | inr (inl (at_rest, fresh)) ↦ GetsAll-after (go (stay u) (first_range u fresh)) (
            ranging-GetsAll u.pump (record u { consumed = true; consumer = ranging }) refl refl
              clean d)
        | inr (inr r) ↦ ranging-GetsAll u.pump u refl r clean d
      ]
