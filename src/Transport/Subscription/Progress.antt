-- ===== src/Transport/Subscription/Progress.antt =====
-- That a consumer of internal/transport/stream.go can get everything.
use mathlib.Core.List.{append_assoc, append-nil}
use advanced_imessage_go.Prelude.{List, [], ◌∷◌, ◌++◌, ◌≡◌, refl, sym, ap, ◌∙◌}
use advanced_imessage_go.Errors.Chain.{GoError, nil}
use advanced_imessage_go.Transport.Runtime.{Outcome, ok, fail}
use advanced_imessage_go.Transport.Subscription.{
  Mapped, emit, drop, failed, receiving, exited, ranging, left, Subscription, set_err, close, leave,
  after_map, after_end, after_open, Steps, receive, end_of_stream, yield_value, take_error,
  end_of_events, stay, go,
}
use advanced_imessage_go.Transport.Subscription.Delivery.{
  run_frames, run_source, run_emit, run_drop, run_failed,
}

module _ {F V : Type 0} (convert : F → Mapped V) (source : Outcome (List F × GoError)) where
  pub Steps-then :
      {s t u : Subscription F V}
      → Steps convert source s t
      → Steps convert source t u
      → Steps convert source s u
  Steps-then a (stay s) = a
  Steps-then a (go b step) = go (Steps-then a b) step

  -- The run of a consumer that takes everything, from the loop of the pump.
  abbrev pub TakesAll : Subscription F V → List F → GoError → Type 0
  TakesAll s frames err =
      (t : Subscription F V) × Steps convert source s t
      × (t.yielded ≡ s.yielded ++ (run_frames convert frames err).0)
      × (t.err ≡ (run_frames convert frames err).1)
      × (t.consumer ≡ left)

  take_end :
      (s : Subscription F V) (err : GoError)
      → s.pump ≡ after_end err
      → s.consumer ≡ ranging
      → s.err ≡ nil
      → (t : Subscription F V) × Steps convert source s t
        × (t.yielded ≡ s.yielded)
        × (t.err ≡ err)
        × (t.consumer ≡ left)
  unfolding after_end leave close set_err
  take_end s nil h r e = (leave s, go (stay s) (end_of_events s h r), refl, e, refl)
  take_end s err h r e = (
    leave (record s { pump = exited; err = set_err s.err err }),
    go (stay s) (take_error s err exited h r),
    refl,
    rw e refl,
    refl,
  )

  pub take_all :
      (frames : List F) (err : GoError) (s : Subscription F V)
      → s.pump ≡ receiving frames err
      → s.consumer ≡ ranging
      → s.err ≡ nil
      → TakesAll s frames err
  unfolding run_frames after_map leave close set_err
  take_all [] err s h r e =
      let (t, steps, same, failed_with, over) =
        take_end (record s { pump = after_end err }) err refl r e in
      (
        t,
        Steps-then (go (stay s) (end_of_stream s err h)) steps,
        same ∙ sym (append-nil s.yielded),
        failed_with,
        over,
      )
  take_all (f ∷ frames) err s h r e = mapped (convert f) refl (λ s' k. take_all frames err s' k)
    where
      mapped :
          (m : Mapped V)
          → convert f ≡ m
          → ((s' : Subscription F V)
              → s'.pump ≡ receiving frames err
              → s'.consumer ≡ ranging
              → s'.err ≡ nil
              → TakesAll s' frames err)
          → TakesAll s (f ∷ frames) err
      mapped (emit v) q rec =
          let sent = go (stay s) (receive s f frames err h) in
          let at_send = ap (λ m. after_map m frames err) q in
          let taken = go sent (
            yield_value (record s { pump = after_map (convert f) frames err }) v
              (receiving frames err) at_send r) in
          let (t, steps, got, failed_with, over) =
            rec (record s { pump = receiving frames err; yielded = s.yielded ++ v ∷ [] }) refl r
              e in
          let same = run_emit convert f v frames err q in
          (
            t,
            Steps-then taken steps,
            got
                ∙ (append_assoc s.yielded (v ∷ []) (run_frames convert frames err).0
                    ∙ ap (λ x. s.yielded ++ x.0) (sym same)),
            failed_with ∙ ap (λ x. x.1) (sym same),
            over,
          )
      mapped drop q rec =
          let (t, steps, got, failed_with, over) =
            rec (record s { pump = after_map (convert f) frames err })
              (ap (λ m. after_map m frames err) q) r e in
          let same = run_drop convert f frames err q in
          (
            t,
            Steps-then (go (stay s) (receive s f frames err h)) steps,
            got ∙ ap (λ x. s.yielded ++ x.0) (sym same),
            failed_with ∙ ap (λ x. x.1) (sym same),
            over,
          )
      mapped (failed x) q rec =
          let sent = go (stay s) (receive s f frames err h) in
          let at_send = ap (λ m. after_map m frames err) q in
          let taken = go sent (
            take_error (record s { pump = after_map (convert f) frames err }) x exited at_send r) in
          let same = run_failed convert f x frames err q in
          (
            leave (record s { pump = exited; err = set_err s.err x }),
            taken,
            sym (append-nil s.yielded) ∙ ap (λ y. s.yielded ++ y.0) (sym same),
            ap (λ g. set_err g x) e ∙ ap (λ y. y.1) (sym same),
            refl,
          )

  pub take_source :
      (o : Outcome (List F × GoError)) (s : Subscription F V)
      → s.pump ≡ after_open o
      → s.consumer ≡ ranging
      → s.err ≡ nil
      → s.yielded ≡ []
      → (t : Subscription F V) × Steps convert source s t
        × (t.yielded ≡ (run_source convert o).0)
        × (t.err ≡ (run_source convert o).1)
        × (t.consumer ≡ left)
  unfolding after_open run_source leave close set_err
  take_source (ok (frames, err)) s h r e y =
      let (t, steps, got, failed_with, over) = take_all frames err s h r e in
      (t, steps, got ∙ ap (λ l. l ++ (run_frames convert frames err).0) y, failed_with, over)
  take_source (fail err) s h r e y = (
    leave (record s { pump = exited; err = set_err s.err err }),
    go (stay s) (take_error s err exited h r),
    y,
    ap (λ g. set_err g err) e,
    refl,
  )
