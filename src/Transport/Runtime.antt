-- ===== src/Transport/Runtime.antt =====
-- What internal/transport takes from its surroundings: the Connect runtime, contexts, clocks,
-- random numbers and the token source, as operations on a state that they share.
use advanced_imessage_go.Prelude.{ℕ, Bool, Option}
use advanced_imessage_go.Prelude.Text.{GoString}
use advanced_imessage_go.Prelude.Int.{ℤ}
use advanced_imessage_go.Prelude.Header.{Header}
use advanced_imessage_go.Errors.Codes.{ConnectCode}
use advanced_imessage_go.Errors.Chain.{GoError}

-- A computation that reads and writes the state `S` of the surroundings.
abbrev pub Action : Type 0 → Type 0 → Type 0
Action S A = S → A × S

module _ {S A B : Type 0} where
  infixl 5 ◌>>=◌ ◌>>◌
  abbrev pub ◌>>=◌ : Action S A → (A → Action S B) → Action S B
  ◌>>=◌ m f s = let (a, s') = m s in f a s'

  abbrev pub ◌>>◌ : Action S A → Action S B → Action S B
  m >> k = m >>= λ _. k

abbrev pub pure : {S A : Type 0} → A → Action S A
pure a s = (a, s)

-- A `(value, error)` result where exactly one of the two is set.
pub data Outcome (R : Type 0) : Type 0 where
  ok : R → Outcome R
  fail : GoError → Outcome R

-- `context.Context`: an optional deadline, and which cancellation it listens to.
pub record Context : Type 0 where
  pub deadline : Option ℤ
  pub scope : ℕ

-- `connect.AnyRequest`: `Spec().Procedure`, `Header()` and the message.
pub record Request (M : Type 0) : Type 0 where
  pub procedure : GoString
  pub header : Header
  pub message : M

-- `connect.StreamingClientConn`, by its request header.
pub record StreamConn : Type 0 where
  pub request_header : Header

abbrev pub UnaryFunc : Type 0 → Type 0 → Type 0 → Type 0
UnaryFunc S M R = Context → Request M → Action S (Outcome R)

abbrev pub StreamingFunc : Type 0 → Type 0
StreamingFunc S = Context → Action S StreamConn

-- `connect.Interceptor`, for the client side.
pub record Interceptor (S M R : Type 0) : Type 0 where
  pub wrap_unary : UnaryFunc S M R → UnaryFunc S M R
  pub wrap_streaming_client : StreamingFunc S → StreamingFunc S

-- The surroundings, over a state `S`:
-- `token` is the function of the token source; `new_key` is `uuid.NewString`;
-- `jitter d` is `time.Duration(rng() * float64(d))`; `wait ctx d` is the `select` between
-- `ctx.Done()` and a timer of length `d`, true if the timer fires; `context_error ctx` is
-- `ctx.Err()` after `ctx.Done()`; `with_timeout ctx d` is `context.WithTimeout`, and `new_error`
-- is `connect.NewError`.
pub record Surroundings (S : Type 0) : Type 0 where
  pub token : Context → Action S (Outcome GoString)
  pub new_key : Action S GoString
  pub jitter : ℤ → Action S ℤ
  pub wait : Context → ℤ → Action S Bool
  pub context_error : Context → S → GoError
  pub with_timeout : Context → ℤ → Action S Context
  pub new_error : ConnectCode → GoError → GoError
