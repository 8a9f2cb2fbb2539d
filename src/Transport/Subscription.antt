-- ===== src/Transport/Subscription.antt =====
-- internal/transport/stream.go: the goroutine that pumps frames, its consumer, and Close, as one
-- state with the steps that they take in any interleaving. A send on the unbuffered channel and
-- the receive that takes it are one step.
pub mod Delivery
pub mod Feed
pub mod Onward
pub mod Progress
pub mod Teardown
pub mod Termination
use advanced_imessage_go.Prelude.{List, [], ◌∷◌, ◌++◌, Bool, true, false, ◌≡◌, ◌≢◌}
use advanced_imessage_go.Prelude.Text.{bytes}
use advanced_imessage_go.Errors.Chain.{GoError, nil, opaque}
use advanced_imessage_go.Transport.Runtime.{Outcome, ok, fail}

abbrev pub err_already_consumed : GoError
err_already_consumed = opaque (bytes "imessage: stream already consumed")

-- The result of a `MapFunc`: an event, a frame to drop, or an error that is not nil.
pub data Mapped (V : Type 0) : Type 0 where
  emit : V → Mapped V
  drop : Mapped V
  failed : GoError → Mapped V

-- `result`: what goes over the channel.
pub data Result (V : Type 0) : Type 0 where
  value : V → Result V
  error : GoError → Result V

-- Where the goroutine `pump` stands: before the call of `open`, before `Receive` with the frames
-- and the error that are still to come, in `trySend` with what it does once the result is taken,
-- or past its deferred calls.
pub data Pump (F V : Type 0) : Type 0 where
  opening : Pump F V
  receiving : List F → GoError → Pump F V
  sending : Result V → Pump F V → Pump F V
  exited : Pump F V

-- The loop over `Events`: not begun, in the loop, or left.
pub data Consumer : Type 0 where
  idle ranging left : Consumer

-- `closeOnce`: not called, waiting for `done`, or returned.
pub data Closing : Type 0 where
  not_called waiting returned : Closing

pub record Subscription (F V : Type 0) : Type 0 where
  pub pump : Pump F V
  pub cancelled : Bool
  pub consumed : Bool
  pub consumer : Consumer
  pub yielded : List V
  pub err : GoError
  pub closing : Closing

-- `Subscribe`
abbrev pub subscribe : {F V : Type 0} → Subscription F V
subscribe = record {
  pump = opening;
  cancelled = false;
  consumed = false;
  consumer = idle;
  yielded = [];
  err = nil;
  closing = not_called;
}

-- `setErr`: the first error stays.
unfoldable pub set_err : GoError → GoError → GoError
set_err nil e = e
set_err err e = err

abbrev pub begin_close : Closing → Closing
begin_close not_called = waiting
begin_close c = c

module _ {F V : Type 0} where
  -- `Close` up to the wait: the context is cancelled.
  unfoldable pub close : Subscription F V → Subscription F V
  close s = record s { cancelled = true; closing = begin_close s.closing }

  -- The end of the loop over `Events`, with its deferred `Close`.
  unfoldable pub leave : Subscription F V → Subscription F V
  unfolding close
  leave s = close (record s { consumer = left })

  -- What `pump` does with a mapped frame.
  unfoldable pub after_map : Mapped V → List F → GoError → Pump F V
  after_map (emit v) frames err = sending (value v) (receiving frames err)
  after_map drop frames err = receiving frames err
  after_map (failed e) frames err = sending (error e) exited

  -- What `pump` does when `Receive` is false: a nil error is a clean end.
  unfoldable pub after_end : GoError → Pump F V
  after_end nil = exited
  after_end err = sending (error err) exited

  -- What `pump` does with the result of `open`: the frames of the stream and its final error.
  unfoldable pub after_open : Outcome (List F × GoError) → Pump F V
  after_open (ok (frames, err)) = receiving frames err
  after_open (fail err) = sending (error err) exited

-- The steps of a subscription with the `MapFunc` `convert`, whose call of `open` gives `source`.
pub data Step {F V : Type 0} (convert : F → Mapped V) (source : Outcome (List F × GoError))
    : Subscription F V → Subscription F V → Type 0 where
  open_stream :
      (s : Subscription F V)
      → s.pump ≡ opening
      → Step convert source s (record s { pump = after_open source })
  -- After a cancellation `open` can fail with any error.
  open_cancelled :
      (s : Subscription F V) (e : GoError)
      → s.pump ≡ opening
      → s.cancelled ≡ true
      → Step convert source s (record s { pump = sending (error e) exited })
  receive :
      (s : Subscription F V) (f : F) (frames : List F) (err : GoError)
      → s.pump ≡ receiving (f ∷ frames) err
      → Step convert source s (record s { pump = after_map (convert f) frames err })
  end_of_stream :
      (s : Subscription F V) (err : GoError)
      → s.pump ≡ receiving [] err
      → Step convert source s (record s { pump = after_end err })
  -- After a cancellation `Receive` can be false early, with any error.
  break_off :
      (s : Subscription F V) (frames : List F) (err e : GoError)
      → s.pump ≡ receiving frames err
      → s.cancelled ≡ true
      → Step convert source s (record s { pump = after_end e })
  -- The consumer takes a value and goes on, or takes it and breaks out of its loop.
  yield_value :
      (s : Subscription F V) (v : V) (next : Pump F V)
      → s.pump ≡ sending (value v) next
      → s.consumer ≡ ranging
      → Step convert source s (record s { pump = next; yielded = s.yielded ++ v ∷ [] })
  yield_last :
      (s : Subscription F V) (v : V) (next : Pump F V)
      → s.pump ≡ sending (value v) next
      → s.consumer ≡ ranging
      → Step convert source s (leave (record s { pump = next; yielded = s.yielded ++ v ∷ [] }))
  take_error :
      (s : Subscription F V) (e : GoError) (next : Pump F V)
      → s.pump ≡ sending (error e) next
      → s.consumer ≡ ranging
      → Step convert source s (leave (record s { pump = next; err = set_err s.err e }))
  -- `trySend` is false.
  give_up :
      (s : Subscription F V) (r : Result V) (next : Pump F V)
      → s.pump ≡ sending r next
      → s.cancelled ≡ true
      → Step convert source s (record s { pump = exited })
  -- The channel is closed.
  end_of_events :
      (s : Subscription F V)
      → s.pump ≡ exited
      → s.consumer ≡ ranging
      → Step convert source s (leave s)
  first_range :
      (s : Subscription F V)
      → s.consumed ≡ false
      → Step convert source s (record s { consumed = true; consumer = ranging })
  range_again :
      (s : Subscription F V)
      → s.consumed ≡ true
      → Step convert source s (record s { err = set_err s.err err_already_consumed })
  call_close : (s : Subscription F V) → Step convert source s (close s)
  close_returns :
      (s : Subscription F V)
      → s.closing ≡ waiting
      → s.pump ≡ exited
      → Step convert source s (record s { closing = returned })
  cancel_parent : (s : Subscription F V) → Step convert source s (record s { cancelled = true })

-- Any number of steps.
pub data Steps {F V : Type 0} (convert : F → Mapped V) (source : Outcome (List F × GoError))
    : Subscription F V → Subscription F V → Type 0 where
  stay : (s : Subscription F V) → Steps convert source s s
  go :
      {s t u : Subscription F V}
      → Steps convert source s t
      → Step convert source t u
      → Steps convert source s u
