-- ===== src/Services/Events.antt =====
-- eventsvc.go: `EventClient`.
use advanced_imessage_go.Prelude.{ℕ, Option, none, some, ltb, if◌then◌else◌}
use advanced_imessage_go.Transport.Runtime.{Action, Outcome, Context}
use advanced_imessage_go.Model.Events.{CatchUpEvent}
use advanced_imessage_go.Wire.Common.{Timestamps}
use advanced_imessage_go.Wire.Changes.{PbCatchUpFrame}
use advanced_imessage_go.Convert.Events.{catch_up_event_from_proto}
use advanced_imessage_go.Streams.{Frames, Opened, emitted}

-- The generated `EventServiceClient`.
pub record EventService (S : Type 0) : Type 0 where
  pub catch_up_events :
      Context → (after_sequence : Option ℕ) → Action S (Outcome (Frames PbCatchUpFrame))

-- `if afterSequence > 0 { req.SetAfterSequence(afterSequence) }`
unfoldable pub after_sequence_of : ℕ → Option ℕ
after_sequence_of n = if ltb 0 n then some n else none

-- `CatchUp`, up to the call of `transport.Subscribe`.
unfoldable pub catch_up :
    ⦃ts : Timestamps⦄ {S : Type 0}
    → EventService S
    → Context
    → ℕ
    → Opened S PbCatchUpFrame CatchUpEvent
unfolding after_sequence_of
catch_up svc ctx n = record {
  open_stream = svc.catch_up_events ctx (after_sequence_of n);
  convert = λ frame. emitted (catch_up_event_from_proto frame);
}
