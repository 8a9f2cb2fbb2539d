-- ===== src/Resumable/Session.antt =====
-- resumable.go from the side of its consumer: Events, Err and Close of `resumableMessages` beside
-- the goroutine `run`, as one state with the steps that they take in any interleaving. Of the
-- goroutine only this is used: it moves by itself, it offers results on `out`, and once it has
-- returned it does neither. A send on `out` and the receive that takes it are one step.
pub mod Contract
use mathlib.Core.List.{map-append}
use advanced_imessage_go.Prelude.{
  List, [], ◌∷◌, ◌++◌, map, Bool, true, false, ◌≡◌, ◌≢◌, ◌⊎◌, inl, inr, refl, sym, ap, ◌∙◌,
}
use advanced_imessage_go.Errors.Chain.{GoError, nil}
use advanced_imessage_go.Transport.Subscription.{
  Result, value, error, Consumer, idle, ranging, left, Closing, not_called, waiting, returned,
  err_already_consumed, set_err, begin_close,
}

-- The goroutine `run`: its states, its own moves (where the flag says that its context is done),
-- its offers with what comes after them, and its end, after which `out` and `done` are closed.
pub record Goroutine (P V : Type 0) : Type 1 where
  pub Moves : Bool → P → P → Type 0
  pub Offers : P → Result V → P → Type 0
  pub Gone : P → Type 0
  pub gone_still : (c : Bool) (p q : P) → Gone p → Moves c p q → ⊥
  pub gone_silent : (p q : P) (r : Result V) → Gone p → Offers p r q → ⊥

-- `resumableMessages`, with what the loop over `Events` has got.
pub record Session (P V : Type 0) : Type 0 where
  pub engine : P
  pub cancelled : Bool
  pub consumed : Bool
  pub consumer : Consumer
  pub yielded : List V
  pub err : GoError
  pub closing : Closing

-- The end of `Client.ResumableMessages`.
abbrev pub opened : {P V : Type 0} → P → Session P V
opened p = record {
  engine = p;
  cancelled = false;
  consumed = false;
  consumer = idle;
  yielded = [];
  err = nil;
  closing = not_called;
}

module _ {P V : Type 0} where
  -- `Close` up to the wait.
  unfoldable pub close_session : Session P V → Session P V
  close_session s = record s { cancelled = true; closing = begin_close s.closing }

  -- The end of the loop over `Events`, with its deferred `Close`.
  unfoldable pub leave_session : Session P V → Session P V
  unfolding close_session
  leave_session s = close_session (record s { consumer = left })

  -- The loop over `Events` receives a value, or an error.
  abbrev pub hand_value : V → P → Session P V → Session P V
  hand_value v q s = record s { engine = q; yielded = s.yielded ++ v ∷ [] }

  abbrev pub hand_error : GoError → P → Session P V → Session P V
  hand_error e q s = record s { engine = q; err = set_err s.err e }

pub data SessionStep {P V : Type 0} (g : Goroutine P V) : Session P V → Session P V → Type 0 where
  engine_moves :
      (s : Session P V) (q : P)
      → g.Moves s.cancelled s.engine q
      → SessionStep g s (record s { engine = q })
  yield_event :
      (s : Session P V) (v : V) (q : P)
      → g.Offers s.engine (value v) q
      → s.consumer ≡ ranging
      → SessionStep g s (hand_value v q s)
  -- The body of the loop breaks.
  yield_last_event :
      (s : Session P V) (v : V) (q : P)
      → g.Offers s.engine (value v) q
      → s.consumer ≡ ranging
      → SessionStep g s (leave_session (hand_value v q s))
  receive_error :
      (s : Session P V) (e : GoError) (q : P)
      → g.Offers s.engine (error e) q
      → s.consumer ≡ ranging
      → SessionStep g s (leave_session (hand_error e q s))
  -- `out` is closed.
  end_of_out :
      (s : Session P V) → g.Gone s.engine → s.consumer ≡ ranging → SessionStep g s (leave_session s)
  range_once :
      (s : Session P V)
      → s.consumed ≡ false
      → SessionStep g s (record s { consumed = true; consumer = ranging })
  range_twice :
      (s : Session P V)
      → s.consumed ≡ true
      → SessionStep g s (record s { err = set_err s.err err_already_consumed })
  start_close : (s : Session P V) → SessionStep g s (close_session s)
  finish_close :
      (s : Session P V)
      → s.closing ≡ waiting
      → g.Gone s.engine
      → SessionStep g s (record s { closing = returned })
  parent_done : (s : Session P V) → SessionStep g s (record s { cancelled = true })

pub data SessionSteps {P V : Type 0} (g : Goroutine P V) : Session P V → Session P V → Type 0 where
  at_start : (s : Session P V) → SessionSteps g s s
  onward : {s t u : Session P V} → SessionSteps g s t → SessionStep g t u → SessionSteps g s u
