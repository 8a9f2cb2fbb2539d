-- ===== src/Streams/Drained.antt =====
-- That `drained` is what a loop over a transport subscription gives.
use mathlib.Core.List.{append-nil}
use advanced_imessage_go.Prelude.{
  List, [], ◌∷◌, ◌++◌, Option, none, some, ◌≡◌, false, refl, sym, ap, ◌∙◌,
}
use advanced_imessage_go.Errors.Chain.{GoError, nil, ConnectText}
use advanced_imessage_go.Errors.Convert.{as_error}
use advanced_imessage_go.Transport.Subscription.{
  Mapped, exited, left, Subscription, subscribe, Steps,
}
use advanced_imessage_go.Transport.Subscription.Delivery.{run_frames, Steps-deliver_all}
use advanced_imessage_go.Transport.Subscription.Onward.{Steps-GetsAll}
use advanced_imessage_go.Streams.{Opened, emitted, drained}

module _ ⦃ct : ConnectText⦄ {S F V : Type 0} (sub : Opened S F V) (s : S) where
  -- Whatever a subscription that is not cancelled and has no error has done so far, its consumer
  -- can go on to a state where it has got exactly the events of `drained`, each once and in order,
  -- its loop is over, and the error read as an `Error` is the `Err` of `drained`.
  pub drained_reached :
      {u : Subscription F V}
      → Steps sub.convert (sub.open_stream s).0 subscribe u
      → u.cancelled ≡ false
      → u.err ≡ nil
      → (t : Subscription F V) × Steps sub.convert (sub.open_stream s).0 u t
        × (t.yielded ≡ (drained sub s).0.events)
        × (as_error t.err ≡ (drained sub s).0.err)
        × (t.consumer ≡ left)
  unfolding drained
  drained_reached before running clean =
      let (t, steps, got, err, over) =
        Steps-GetsAll sub.convert (sub.open_stream s).0 before running clean in
      (t, steps, got, ap as_error err, over)

  -- A subscription whose goroutine has exited without a cancellation has delivered exactly the
  -- events of `drained`, and `Err` of `drained` is nil.
  pub drained_only :
      {u : Subscription F V}
      → Steps sub.convert (sub.open_stream s).0 subscribe u
      → u.pump ≡ exited
      → u.cancelled ≡ false
      → (u.yielded ≡ (drained sub s).0.events) × (nil ≡ (drained sub s).0.err)
  unfolding drained as_error
  drained_only steps gone running =
      let (got, clean) = Steps-deliver_all sub.convert (sub.open_stream s).0 steps gone running in
      (got, ap as_error clean)

-- The events of frames whose conversion has no error.
unfoldable pub kept : {F V : Type 0} → (F → Option V) → List F → List V
kept f [] = []
kept f (x ∷ xs) = let rest = kept f xs in elim (f x) [ none ↦ rest | some v ↦ v ∷ rest ]

module _ {F V : Type 0} (f : F → Option V) where
  abbrev emitting : F → Mapped V
  emitting x = emitted (f x)

  pub run_kept :
      (xs ys : List F) (err : GoError)
      → (run_frames emitting (xs ++ ys) err).0 ≡ kept f xs ++ (run_frames emitting ys err).0
  unfolding run_frames kept
  run_kept [] ys err = refl
  run_kept (x ∷ xs) ys err = at (f x) refl (run_kept xs ys err)
    where
      at :
          (o : Option V)
          → f x ≡ o
          → (run_frames emitting (xs ++ ys) err).0 ≡ kept f xs ++ (run_frames emitting ys err).0
          → (run_frames emitting (x ∷ xs ++ ys) err).0
            ≡ kept f (x ∷ xs) ++ (run_frames emitting ys err).0
      at none e ih = rw (e, run_frames, kept) ih
      at (some v) e ih = rw (e, run_frames, kept) (ap (λ l. v ∷ l) ih)

  pub run_kept_all : (xs : List F) (err : GoError) → (run_frames emitting xs err).0 ≡ kept f xs
  unfolding run_frames
  run_kept_all xs err =
      ap (λ l. (run_frames emitting l err).0) (sym (append-nil xs))
      ∙ (run_kept xs [] err ∙ append-nil (kept f xs))
