-- ===== src/Examples/Subscriptions.antt =====
-- Subscriptions to a stream of three frames, of which the second is dropped.
use advanced_imessage_go.Prelude.{
  ◌+◌, ◌*◌, ◌≤◌, ◌⊎◌, length, ℕ, zero, suc, List, [], ◌∷◌, true, false, ◌≡◌, refl,
}
use advanced_imessage_go.Errors.Chain.{GoError, nil}
use advanced_imessage_go.Transport.Runtime.{Outcome, ok}
use advanced_imessage_go.Transport.Subscription.{
  Mapped, emit, drop, Result, set_err, after_open, after_map, after_end, Pump, exited, Consumer,
  Closing, returned, Subscription, subscribe, err_already_consumed, close, Steps, open_stream,
  open_cancelled, give_up, error, sending, receive, end_of_stream, yield_value, first_range,
  range_again, call_close, close_returns, stay, go,
}
use advanced_imessage_go.Transport.Subscription.Delivery.{run_source, Steps-deliver_all}
use advanced_imessage_go.Transport.Subscription.Feed.{FeedSteps, feed_of, feed, Steps-refine}
use advanced_imessage_go.Transport.Subscription.Termination.{
  pump_moves, frames_of, CanMove, goroutine_ends,
}
use advanced_imessage_go.Transport.Subscription.Teardown.{Steps-err, close_waits, cancelled_exits}

abbrev convert : ℕ → Mapped ℕ
convert zero = drop
convert (suc n) = emit (suc n)

abbrev source : Outcome (List ℕ × GoError)
source = ok (5 ∷ [], nil)

-- Range, open, receive, yield, end of the stream.
abbrev after_one : Subscription ℕ ℕ
after_one = record {
  pump = exited;
  cancelled = false;
  consumed = true;
  consumer = Consumer.ranging;
  yielded = 5 ∷ [];
  err = nil;
  closing = Closing.not_called;
}

abbrev looping : Subscription ℕ ℕ
looping = record subscribe { consumed = true; consumer = Consumer.ranging }

one-Steps : Steps convert source subscribe after_one
unfolding after_open after_map after_end
one-Steps =
    go
      (go
        (go (go (go (stay subscribe) (first_range subscribe refl)) (open_stream looping refl))
          (receive (record looping { pump = Pump.receiving (5 ∷ []) nil }) 5 [] nil refl))
        (yield_value (record looping { pump = sending (Result.value 5) (Pump.receiving [] nil) }) 5
          (Pump.receiving [] nil) refl refl))
      (end_of_stream (record looping { pump = Pump.receiving [] nil; yielded = 5 ∷ [] }) nil refl)

Steps-deliver_all_example :
    (5 ∷ [] ≡ (run_source convert source).0) × (nil ≡ (run_source convert source).1)
Steps-deliver_all_example = Steps-deliver_all convert source {s = after_one} one-Steps refl refl

-- A second range after the first.
abbrev twice : Subscription ℕ ℕ
twice = record looping { err = err_already_consumed }

twice-Steps : Steps convert source twice twice
unfolding set_err
twice-Steps = go (stay twice) (range_again twice refl)

Steps-err_example : twice.err ≡ err_already_consumed
Steps-err_example = Steps-err convert source {s = twice} {t = twice} twice-Steps (λ h. cc)

-- Closed before the stream was opened.
abbrev closed : Subscription ℕ ℕ
closed = record subscribe { pump = exited; cancelled = true; closing = returned }

closed-Steps : Steps convert source subscribe closed
unfolding close
closed-Steps =
    go
      (go
        (go (go (stay subscribe) (call_close subscribe))
          (open_cancelled (close subscribe) nil refl refl))
        (give_up
          (record subscribe {
            pump = sending (error nil) exited;
            cancelled = true;
            closing = Closing.waiting;
          })
          (error nil) exited refl refl))
      (close_returns
        (record subscribe { pump = exited; cancelled = true; closing = Closing.waiting }) refl refl)

close_waits_example : (closed.pump ≡ exited) × (closed.cancelled ≡ true)
close_waits_example = close_waits convert source {s = closed} closed-Steps refl

abbrev blocked : Subscription ℕ ℕ
blocked = record subscribe {
  pump = sending (Result.value 5) (Pump.receiving [] nil);
  cancelled = true;
}

cancelled_exits_example : Steps convert source blocked (record blocked { pump = exited })
cancelled_exits_example = cancelled_exits convert source blocked nil refl

goroutine_ends_example :
    (pump_moves convert source closed-Steps ≤ 2 * length (frames_of source) + 3)
    × (closed.cancelled ≡ true → (closed.pump ≡ exited) ⊎ CanMove convert source closed)
goroutine_ends_example = goroutine_ends convert source {s = closed} closed-Steps

Steps-refine_example :
    FeedSteps (feed_of (run_source convert source)) (feed convert source after_one)
Steps-refine_example = Steps-refine convert source {s = after_one} one-Steps
