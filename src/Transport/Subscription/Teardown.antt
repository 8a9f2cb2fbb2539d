-- ===== src/Transport/Subscription/Teardown.antt =====
-- The error that internal/transport/stream.go keeps, and what `Close` can rely on.
use mathlib.Core.Path.{subst}
use advanced_imessage_go.Prelude.{
  ap, List, [], ◌∷◌, ◌++◌, true, ◌≡◌, ◌≢◌, ◌⊎◌, inl, inr, refl, sym, ◌∙◌,
}
use advanced_imessage_go.Errors.Chain.{GoError, nil}
use advanced_imessage_go.Transport.Runtime.{Outcome}
use advanced_imessage_go.Transport.Subscription.{
  Mapped, error, Pump, opening, receiving, sending, exited, Closing, not_called, waiting, returned,
  Subscription, subscribe, set_err, begin_close, close, leave, after_map, after_end, after_open,
  Step, Steps, open_stream, open_cancelled, receive, end_of_stream, break_off, yield_value,
  yield_last, take_error, give_up, end_of_events, first_range, range_again, call_close,
  close_returns, cancel_parent, stay, go,
}

module _ {F V : Type 0} (convert : F → Mapped V) (source : Outcome (List F × GoError)) where
  set_err-kept : (err e : GoError) → err ≢ nil → set_err err e ≡ err
  unfolding set_err
  set_err-kept nil e h = absurd (h refl)
  set_err-kept _ e h = refl

  Step-err : {s t : Subscription F V} → Step convert source s t → s.err ≢ nil → t.err ≡ s.err
  unfolding leave close
  Step-err (take_error s e next p r) h = set_err-kept s.err e h
  Step-err (range_again s c) h = set_err-kept s.err _ h
  Step-err (open_stream s p) h = refl
  Step-err (open_cancelled s e p c) h = refl
  Step-err (receive s f frames err p) h = refl
  Step-err (end_of_stream s err p) h = refl
  Step-err (break_off s frames err e p c) h = refl
  Step-err (yield_value s v next p r) h = refl
  Step-err (yield_last s v next p r) h = refl
  Step-err (give_up s r next p c) h = refl
  Step-err (end_of_events s p r) h = refl
  Step-err (first_range s c) h = refl
  Step-err (call_close s) h = refl
  Step-err (close_returns s c p) h = refl
  Step-err (cancel_parent s) h = refl

  -- Once a subscription has an error, no later step changes it: the first error is the one that
  -- `Err` returns, also after a second call of `Events`.
  pub Steps-err : {s t : Subscription F V} → Steps convert source s t → s.err ≢ nil → t.err ≡ s.err
  Steps-err (stay s) h = refl
  Steps-err (go {t} steps step) h =
      let before = Steps-err steps h in Step-err step (λ e. h (sym before ∙ e)) ∙ before

  -- A subscription that is being closed is cancelled, and one whose `Close` returned has no pump.
  abbrev IsClosing : Subscription F V → Type 0
  IsClosing s =
      ((s.closing ≡ not_called) ⊎ (s.cancelled ≡ true)) × (s.closing ≡ returned → s.pump ≡ exited)

  begin_close-returned : (c : Closing) → begin_close c ≡ returned → c ≡ returned
  begin_close-returned not_called h = cc
  begin_close-returned waiting h = h
  begin_close-returned returned h = h

  -- Whatever the pump does, a closed subscription has none.
  moves :
      (s : Subscription F V) {p : Pump F V} (next : Pump F V)
      → s.pump ≡ p
      → p ≢ exited
      → IsClosing s
      → IsClosing (record s { pump = next })
  moves s next at running (begun, done) = (begun, λ r. absurd (running (sym at ∙ done r)))

  leaves : (s : Subscription F V) → IsClosing s → IsClosing (leave s)
  unfolding leave close
  leaves s (begun, done) = (inr refl, λ r. done (begin_close-returned s.closing r))

  Step-IsClosing : {s t : Subscription F V} → Step convert source s t → IsClosing s → IsClosing t
  unfolding leave close
  Step-IsClosing (open_stream s p) h = moves s (after_open source) p (λ e. cc) h
  Step-IsClosing (open_cancelled s e p c) h = moves s (sending (error e) exited) p (λ e. cc) h
  Step-IsClosing (receive s f frames err p) h =
      moves s (after_map (convert f) frames err) p (λ e. cc) h
  Step-IsClosing (end_of_stream s err p) h = moves s (after_end err) p (λ e. cc) h
  Step-IsClosing (break_off s frames err e p c) h = moves s (after_end e) p (λ e. cc) h
  Step-IsClosing (yield_value s v next p r) h = moves s next p (λ e. cc) h
  Step-IsClosing (yield_last s v next p r) h =
      leaves (record s { pump = next; yielded = s.yielded ++ v ∷ [] }) (moves s next p (λ e. cc) h)
  Step-IsClosing (take_error s e next p r) h =
      leaves (record s { pump = next; err = set_err s.err e }) (moves s next p (λ e. cc) h)
  Step-IsClosing (give_up s r next p c) h = moves s exited p (λ e. cc) h
  Step-IsClosing (end_of_events s p r) h = leaves s h
  Step-IsClosing (first_range s c) h = h
  Step-IsClosing (range_again s c) h = h
  Step-IsClosing (call_close s) h = leaves s h
  Step-IsClosing (close_returns s c p) (begun, done) =
      (elim begun [ inl e ↦ absurd cc | inr e ↦ inr e ], λ r. p)
  Step-IsClosing (cancel_parent s) (begun, done) = (inr refl, done)

  Steps-IsClosing : {s t : Subscription F V} → Steps convert source s t → IsClosing s → IsClosing t
  Steps-IsClosing (stay s) h = h
  Steps-IsClosing (go steps step) h = Step-IsClosing step (Steps-IsClosing steps h)

  -- Teardown is deterministic: when `Close` has returned, the goroutine of the subscription has
  -- exited and its context is cancelled, in whatever order receives, sends, cancellations, ranges
  -- and calls of `Close` came before.
  pub close_waits :
      {s : Subscription F V}
      → Steps convert source subscribe s
      → s.closing ≡ returned
      → (s.pump ≡ exited) × (s.cancelled ≡ true)
  close_waits steps r =
      let (begun, done) = Steps-IsClosing steps (inl refl, λ r'. cc) in
      (done r, elim begun [ inl e ↦ absurd cc | inr e ↦ e ])

  at_exit :
      (s : Subscription F V) → s.pump ≡ exited → Steps convert source s (record s { pump = exited })
  at_exit s h = subst (λ t. Steps convert source s t) (ap (λ p. record s { pump = p }) h) (stay s)

  -- After the pump has failed with `e`, it goes without a consumer.
  exit_after :
      (s t : Subscription F V) (e : GoError)
      → s.cancelled ≡ true
      → Steps convert source t (record s { pump = after_end e })
      → Steps convert source t (record s { pump = exited })
  unfolding after_end
  exit_after s t nil c steps = steps
  exit_after s t e c steps =
      go steps (give_up (record s { pump = sending (error e) exited }) (error e) exited refl c)

  -- A cancelled subscription never hangs: wherever its goroutine stands, it can exit without the
  -- consumer taking anything more, whatever error the broken stream reports.
  pub cancelled_exits :
      (s : Subscription F V) (e : GoError)
      → s.cancelled ≡ true
      → Steps convert source s (record s { pump = exited })
  cancelled_exits s e c = from_pump s.pump refl
    where
      from_pump : (p : Pump F V) → s.pump ≡ p → Steps convert source s (record s { pump = exited })
      from_pump opening h =
          go (go (stay s) (open_cancelled s e h c))
            (give_up (record s { pump = sending (error e) exited }) (error e) exited refl c)
      from_pump (receiving frames err) h =
          exit_after s s e c (go (stay s) (break_off s frames err e h c))
      from_pump (sending r next) h = go (stay s) (give_up s r next h c)
      from_pump exited h = at_exit s h
