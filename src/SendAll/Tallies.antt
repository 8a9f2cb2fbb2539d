-- ===== src/SendAll/Tallies.antt =====
-- What the failures that examples/send-all/main.go records are: those of the server.
use advanced_imessage_go.Prelude.{
  ℕ, ◌+◌, Bool, true, false, Option, none, some, ◌≡◌, refl, arith, inl, inr, if◌then◌else◌,
  Bool-cases,
}
use advanced_imessage_go.Errors.Chain.{
  GoError, Error, ConnectError, nil, ConnectText, as_imessage, as_connect, is_deadline_exceeded,
  is_canceled,
}
use advanced_imessage_go.Errors.Convert.{as_error, from_parts, from_context}
use advanced_imessage_go.Transport.Runtime.{Action, Outcome, ok, fail}
use advanced_imessage_go.Wire.Common.{Timestamps}
use advanced_imessage_go.Wire.Message.{PbMessage}
use advanced_imessage_go.Messages.{message_result, then_result}
use advanced_imessage_go.Services.{answered}
use advanced_imessage_go.SendAll.{
  Recorder, noted, error_of, Run, calling, record_step, skip_step, recorded, recorded_error,
}

-- A call with this error counts as one failure, and one without an error as none.
abbrev pub failures_of : GoError → ℕ
failures_of nil = 0
failures_of _ = 1

pub failed-noted :
    (err : GoError) (r : Recorder) → (noted err r).failed ≡ r.failed + failures_of err
failed-noted nil r = omega arith
failed-noted _ r = refl

-- `count` is how many calls the server has failed so far.
module _ {S : Type 0} (count : S → ℕ) where
  -- A call that the server counts as a failure exactly if it returns an error.
  abbrev pub IsCounted : {A : Type 0} → Action S (Outcome A) → Type 0
  IsCounted m = (s : S) → count (m s).1 ≡ count s + failures_of (error_of (m s).0)

  abbrev pub IsCountedError : Action S GoError → Type 0
  IsCountedError m = (s : S) → count (m s).1 ≡ count s + failures_of (m s).0

  -- A part of the program that records as many failures as the server counts meanwhile.
  abbrev pub Tallies : {A : Type 0} → Run S A → Type 0
  Tallies m =
      (r : Recorder) (s : S) → (m (r, s)).1.0.failed + count s ≡ r.failed + count (m (r, s)).1.1

  pub skip_step-Tallies : Tallies skip_step
  unfolding skip_step
  skip_step-Tallies r s = refl

  pub recorded-Tallies :
      {A : Type 0} (m : Action S (Outcome A)) → IsCounted m → Tallies (recorded m)
  unfolding recorded calling record_step
  recorded-Tallies m h r s = omega (arith, failed-noted (error_of (m s).0) r, h s)

  pub recorded_error-Tallies :
      (m : Action S GoError) → IsCountedError m → Tallies (recorded_error m)
  unfolding recorded_error calling record_step
  recorded_error-Tallies m h r s = omega (arith, failed-noted (m s).0 r, h s)

  pub branch-Tallies :
      (b : Bool) (m n : Run S Unit) → Tallies m → Tallies n → Tallies (if b then m else n)
  branch-Tallies true m n h g = h
  branch-Tallies false m n h g = g

  pub unless-Tallies :
      {A : Type 0} (b : Bool) (m : Action S (Outcome A))
      → IsCounted m
      → Tallies (if b then skip_step else recorded m)
  unless-Tallies b m h =
      branch-Tallies b skip_step (recorded m) skip_step-Tallies (recorded-Tallies m h)

  pub when-Tallies :
      {A : Type 0} (b : Bool) (m : Action S (Outcome A))
      → IsCounted m
      → Tallies (if b then recorded m else skip_step)
  when-Tallies b m h =
      branch-Tallies b (recorded m) skip_step (recorded-Tallies m h) skip_step-Tallies

module _ ⦃ct : ConnectText⦄ where
  from_context-fails : (err : GoError) → failures_of err ≡ 1 → failures_of (from_context err) ≡ 1
  unfolding from_context
  from_context-fails err h = elim (Bool-cases (is_deadline_exceeded err)) [
    | inl e ↦ rw e refl
    | inr e ↦ elim (Bool-cases (is_canceled err)) [ inl k ↦ rw (e, k) refl | inr k ↦ rw (e, k) h ]
  ]

  from_parts-fails :
      (o : Option (Error × GoError)) (c : Option ConnectError) (err : GoError)
      → failures_of err ≡ 1
      → failures_of (from_parts o c err) ≡ 1
  from_parts-fails (some (e, cause)) c err h = refl
  from_parts-fails none (some ce) err h = refl
  from_parts-fails none none err h = from_context-fails err h

  -- `asError` makes an error of an error, and of nothing else.
  pub failures_of-as_error : (err : GoError) → failures_of (as_error err) ≡ failures_of err
  unfolding as_error
  failures_of-as_error nil = refl
  failures_of-as_error err = from_parts-fails (as_imessage err) (as_connect err) err refl

  module _ {S : Type 0} (count : S → ℕ) where
    pub answered-IsCounted :
        {A B : Type 0} (f : A → B) (call : Action S (Outcome A))
        → IsCounted count call
        → IsCounted count (answered f call)
    unfolding answered
    answered-IsCounted {A} {B} f call h s = by_reply (call s).0 (h s)
      where
        by_reply :
            (reply : Outcome A)
            → count (call s).1 ≡ count s + failures_of (error_of reply)
            → let out = elim reply as (λ x. Outcome B × S) [
              | ok resp ↦ (ok (f resp), (call s).1)
              | fail err ↦ (fail (as_error err), (call s).1)
            ] in
              count out.1 ≡ count s + failures_of (error_of out.0)
        by_reply (ok resp) k = k
        by_reply (fail err) k = rw (failures_of-as_error err) k

    module _ ⦃ts : Timestamps⦄ where
      pub then_result-IsCounted :
          (call : Action S (Outcome (Option PbMessage)))
          → IsCounted count call
          → IsCounted count (then_result message_result call)
      then_result-IsCounted call h s = by_reply (call s).0 (h s)
        where
          by_reply :
              (reply : Outcome (Option PbMessage))
              → count (call s).1 ≡ count s + failures_of (error_of reply)
              → count (call s).1 ≡ count s + failures_of (error_of (message_result reply))
          by_reply (ok m) k = k
          by_reply (fail err) k = rw (failures_of-as_error err) k

      pub then_error-IsCountedError :
          (call : Action S GoError)
          → IsCountedError count call
          → IsCountedError count (then_result as_error call)
      then_error-IsCountedError call h s = rw (failures_of-as_error (call s).0) (h s)
