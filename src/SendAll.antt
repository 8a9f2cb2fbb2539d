-- ===== src/SendAll.antt =====
-- examples/send-all/main.go: the recorder and the steps, from the first message on; the log lines
-- are left out.
pub mod Contents
pub mod Steps
pub mod Outcomes
pub mod Tallies
pub mod Counting
pub mod Failures
pub mod Counts
use advanced_imessage_go.Prelude.{
  ℕ, ◌+◌, Bool, Option, none, some, ltb, if◌then◌else◌, List, [], ◌∷◌, ◌++◌, true, false, not, ◌&&◌,
}
use advanced_imessage_go.Prelude.Text.{GoString, bytes, is_empty}
use advanced_imessage_go.Errors.Chain.{GoError, nil, opaque}
use advanced_imessage_go.Transport.Runtime.{Action, Outcome, ok, fail, ◌>>=◌}

-- `recorder`
pub record Recorder : Type 0 where
  pub passed : ℕ
  pub failed : ℕ
  pub skipped : ℕ

abbrev pub new_recorder : Recorder
new_recorder = record { passed = 0; failed = 0; skipped = 0 }

abbrev pub noted : GoError → Recorder → Recorder
noted nil r = record r { passed = r.passed + 1 }
noted _ r = record r { failed = r.failed + 1 }

-- `summary`, over the verb %d.
unfoldable pub summary : (ℕ → GoString) → Recorder → GoError
summary decimal r =
    if ltb 0 r.failed then opaque (decimal r.failed ++ bytes " message type(s) failed") else nil

-- The error of a result.
abbrev pub error_of : {A : Type 0} → Outcome A → GoError
error_of (ok _) = nil
error_of (fail err) = err

-- A part of the program, on the recorder and the state of the server.
abbrev pub Run : Type 0 → Type 0 → Type 0
Run S A = Action (Recorder × S) A

module _ {S : Type 0} where
  -- A call of the client.
  unfoldable pub calling : {A : Type 0} → Action S A → Run S A
  calling m (r, s) = let (a, s') = m s in (a, (r, s'))

  -- The methods `record` and `skip`.
  unfoldable pub record_step : GoError → Run S Unit
  record_step err (r, s) = (tt, (noted err r, s))

  unfoldable pub skip_step : Run S Unit
  skip_step (r, s) = (tt, (record r { skipped = r.skipped + 1 }, s))

  -- The call, and its outcome.
  unfoldable pub recorded : {A : Type 0} → Action S (Outcome A) → Run S Unit
  unfolding calling record_step
  recorded m = do reply ← calling m; record_step (error_of reply)

  -- A call that only gives an error.
  unfoldable pub recorded_error : Action S GoError → Run S Unit
  unfolding calling record_step
  recorded_error m = do err ← calling m; record_step err
