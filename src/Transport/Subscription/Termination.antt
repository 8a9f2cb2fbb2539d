-- ===== src/Transport/Subscription/Termination.antt =====
-- That the goroutine `pump` of internal/transport/stream.go ends: how many steps it can take.
use advanced_imessage_go.Prelude.{
  ℕ, suc, ◌+◌, ◌*◌, ◌≤◌, List, [], length, true, ◌≡◌, ◌⊎◌, inl, inr, refl, arith, ap,
}
use advanced_imessage_go.Errors.Chain.{GoError, nil}
use advanced_imessage_go.Transport.Runtime.{Outcome, ok, fail}
use advanced_imessage_go.Transport.Subscription.{
  Mapped, emit, drop, failed, Pump, opening, receiving, sending, exited, Subscription, subscribe,
  close, leave, after_map, after_end, after_open, Step, Steps, open_stream, open_cancelled, receive,
  end_of_stream, break_off, yield_value, yield_last, take_error, give_up, end_of_events,
  first_range, range_again, call_close, close_returns, cancel_parent, stay, go,
}

abbrev pub frames_of : {F : Type 0} → Outcome (List F × GoError) → List F
frames_of (ok (frames, err)) = frames
frames_of (fail err) = []

module _ {F V : Type 0} (convert : F → Mapped V) (source : Outcome (List F × GoError)) where
  -- 1 for a step of the goroutine, alone or with the consumer; 0 for a step of the others.
  abbrev pub pump_move : {s t : Subscription F V} → Step convert source s t → ℕ
  pump_move (open_stream s p) = 1
  pump_move (open_cancelled s e p c) = 1
  pump_move (receive s f frames err p) = 1
  pump_move (end_of_stream s err p) = 1
  pump_move (break_off s frames err e p c) = 1
  pump_move (yield_value s v next p r) = 1
  pump_move (yield_last s v next p r) = 1
  pump_move (take_error s e next p r) = 1
  pump_move (give_up s r next p c) = 1
  pump_move (end_of_events s p r) = 0
  pump_move (first_range s c) = 0
  pump_move (range_again s c) = 0
  pump_move (call_close s) = 0
  pump_move (close_returns s c p) = 0
  pump_move (cancel_parent s) = 0

  abbrev pub pump_moves : {s t : Subscription F V} → Steps convert source s t → ℕ
  pump_moves (stay s) = 0
  pump_moves (go steps step) = pump_moves steps + pump_move step

  -- 1 for a step that the goroutine takes alone; a send that the consumer receives is not one.
  abbrev pub own_move : {s t : Subscription F V} → Step convert source s t → ℕ
  own_move (open_stream s p) = 1
  own_move (open_cancelled s e p c) = 1
  own_move (receive s f frames err p) = 1
  own_move (end_of_stream s err p) = 1
  own_move (break_off s frames err e p c) = 1
  own_move (give_up s r next p c) = 1
  own_move _ = 0

  -- A received frame takes two steps at most, an error or the end two more, opening one.
  abbrev work : Pump F V → ℕ
  work opening = 2 * length (frames_of source) + 3
  work (receiving frames err) = 2 * length frames + 2
  work (sending r next) = suc (work next)
  work exited = 0

  after_open-work :
      (o : Outcome (List F × GoError)) → work (after_open o) ≤ 2 * length (frames_of o) + 2
  unfolding after_open
  after_open-work (ok (frames, err)) = omega arith
  after_open-work (fail err) = omega arith

  after_map-work :
      (m : Mapped V) (frames : List F) (err : GoError)
      → work (after_map m frames err) ≤ 2 * length frames + 3
  unfolding after_map
  after_map-work (emit v) frames err = omega arith
  after_map-work drop frames err = omega arith
  after_map-work (failed e) frames err = omega arith

  after_end-work : (err : GoError) → work (after_end err) ≤ 1
  unfolding after_end
  after_end-work nil = omega arith
  after_end-work _ = omega arith

  Step-work :
      {s t : Subscription F V} (step : Step convert source s t)
      → pump_move step + work t.pump ≤ work s.pump
  unfolding leave close
  Step-work (open_stream s p) = let e = ap work p in omega (arith, after_open-work source)
  Step-work (open_cancelled s e p c) = let e' = ap work p in omega arith
  Step-work (receive s f frames err p) =
      let e = ap work p in omega (arith, after_map-work (convert f) frames err)
  Step-work (end_of_stream s err p) = let e = ap work p in omega (arith, after_end-work err)
  Step-work (break_off s frames err x p c) = let e = ap work p in omega (arith, after_end-work x)
  Step-work (yield_value s v next p r) = let e = ap work p in omega arith
  Step-work (yield_last s v next p r) = let e = ap work p in omega arith
  Step-work (take_error s x next p r) = let e = ap work p in omega arith
  Step-work (give_up s r next p c) = let e = ap work p in omega arith
  Step-work (end_of_events s p r) = omega arith
  Step-work (first_range s c) = omega arith
  Step-work (range_again s c) = omega arith
  Step-work (call_close s) = omega arith
  Step-work (close_returns s c p) = omega arith
  Step-work (cancel_parent s) = omega arith

  Steps-work :
      {s t : Subscription F V} (steps : Steps convert source s t)
      → pump_moves steps + work t.pump ≤ work s.pump
  Steps-work (stay s) = omega arith
  Steps-work (go steps step) = omega (arith, Steps-work steps, Step-work step)

  -- The goroutine has a step to take that needs none of the others.
  abbrev pub CanMove : Subscription F V → Type 0
  CanMove s = (t : Subscription F V) × (step : Step convert source s t) × (own_move step ≡ 1)

  cancelled_moves : (s : Subscription F V) → s.cancelled ≡ true → (s.pump ≡ exited) ⊎ CanMove s
  cancelled_moves s c = from_pump s.pump refl
    where
      from_pump : (p : Pump F V) → s.pump ≡ p → (s.pump ≡ exited) ⊎ CanMove s
      from_pump opening h = inr (record s { pump = after_open source }, open_stream s h, refl)
      from_pump (receiving frames err) h =
          inr (record s { pump = after_end err }, break_off s frames err err h c, refl)
      from_pump (sending r next) h = inr (record s { pump = exited }, give_up s r next h c, refl)
      from_pump exited h = inl h

  -- In any run of a subscription the goroutine takes at most two steps for each frame of the stream
  -- and three more, however often the others step in between; and once it is cancelled, it has
  -- exited, or it can take a step for which it does not wait for the consumer, whether the consumer
  -- ranges or not.
  pub goroutine_ends :
      {s : Subscription F V} (steps : Steps convert source subscribe s)
      → (pump_moves steps ≤ 2 * length (frames_of source) + 3)
        × (s.cancelled ≡ true → (s.pump ≡ exited) ⊎ CanMove s)
  goroutine_ends {s} steps = (omega (arith, Steps-work steps), cancelled_moves s)
