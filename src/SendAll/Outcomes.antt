-- ===== src/SendAll/Outcomes.antt =====
-- How many outcomes a part of examples/send-all/main.go records.
use advanced_imessage_go.Prelude.{ℕ, ◌+◌, Bool, true, false, ◌≡◌, arith, if◌then◌else◌}
use advanced_imessage_go.Errors.Chain.{GoError, nil}
use advanced_imessage_go.Transport.Runtime.{Action, Outcome}
use advanced_imessage_go.SendAll.{
  Recorder, noted, error_of, Run, calling, record_step, skip_step, recorded, recorded_error,
}

abbrev pub total : Recorder → ℕ
total r = r.passed + r.failed + r.skipped

pub total-noted : (err : GoError) (r : Recorder) → total (noted err r) ≡ total r + 1
total-noted nil r = omega arith
total-noted _ r = omega arith

module _ {S : Type 0} where
  -- A run that records `k` outcomes, whatever the server does.
  abbrev pub Adds : {A : Type 0} → ℕ → Run S A → Type 0
  Adds k m = (r : Recorder) (s : S) → total (m (r, s)).1.0 ≡ total r + k

  pub record_step-Adds : (err : GoError) → Adds 1 (record_step err)
  unfolding record_step
  record_step-Adds err r s = total-noted err r

  pub skip_step-Adds : Adds 1 skip_step
  unfolding skip_step
  skip_step-Adds r s = omega arith

  pub recorded-Adds : {A : Type 0} (m : Action S (Outcome A)) → Adds 1 (recorded m)
  unfolding recorded calling record_step
  recorded-Adds m r s = total-noted (error_of (m s).0) r

  pub recorded_error-Adds : (m : Action S GoError) → Adds 1 (recorded_error m)
  unfolding recorded_error calling record_step
  recorded_error-Adds m r s = total-noted (m s).0 r

  pub branch-Adds :
      (k : ℕ) (b : Bool) (m n : Run S Unit) → Adds k m → Adds k n → Adds k (if b then m else n)
  branch-Adds k true m n h g = h
  branch-Adds k false m n h g = g

  -- A step that is skipped, and one that is made, where a test says so.
  pub unless-Adds :
      {A : Type 0} (b : Bool) (m : Action S (Outcome A))
      → Adds 1 (if b then skip_step else recorded m)
  unless-Adds b m = branch-Adds 1 b skip_step (recorded m) skip_step-Adds (recorded-Adds m)

  pub when-Adds :
      {A : Type 0} (b : Bool) (m : Action S (Outcome A))
      → Adds 1 (if b then recorded m else skip_step)
  when-Adds b m = branch-Adds 1 b (recorded m) skip_step (recorded-Adds m) skip_step-Adds
