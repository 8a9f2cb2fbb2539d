-- ===== src/Resumable/Connected/Frames.antt =====
-- The events of the frames that the server sends to the engine of resumable.go.
use advanced_imessage_go.Prelude.{ℕ, List, [], ◌∷◌, All, Option, none, some, ◌≢◌, refl}
use advanced_imessage_go.Model.Events.{
  MessageEvent, CatchUpEvent, CatchupComplete, message_event, chat_event, group_event, poll_event,
  catchup_complete,
}
use advanced_imessage_go.Wire.Common.{Timestamps}
use advanced_imessage_go.Wire.Changes.{
  PbFrame, PbMessageChangeEvent, PbCatchUpFrame, PbCatchUpPayload,
}
use advanced_imessage_go.Convert.Events.{
  message_event_from_proto, catch_up_event_from_proto, catch_up_event_of, as_catch_up,
}
use advanced_imessage_go.Streams.Drained.{kept}
use advanced_imessage_go.Resumable.Progress.{IsOpen}

-- The frame does not report the completion.
abbrev pub IsEvent : PbCatchUpFrame → Type 0
IsEvent frame = (head : ℕ) → frame.payload ≢ PbCatchUpPayload.complete head

module _ ⦃ts : Timestamps⦄ where
  -- The events of catch-up frames and of live frames.
  abbrev pub replayed : List PbCatchUpFrame → List CatchUpEvent
  replayed frames = kept catch_up_event_from_proto frames

  abbrev pub followed : List (PbFrame PbMessageChangeEvent) → List MessageEvent
  followed frames = kept message_event_from_proto frames

  IsOpen-cons :
      (o : Option CatchUpEvent) (l : List CatchUpEvent)
      → ((e : CatchupComplete) → o ≢ some (catchup_complete e))
      → IsOpen l
      → IsOpen (elim o [ none ↦ l | some v ↦ v ∷ l ])
  IsOpen-cons none l h open_l = open_l
  IsOpen-cons (some (message_event ev)) l h open_l = open_l
  IsOpen-cons (some (chat_event ev)) l h open_l = open_l
  IsOpen-cons (some (group_event ev)) l h open_l = open_l
  IsOpen-cons (some (poll_event ev)) l h open_l = open_l
  IsOpen-cons (some (catchup_complete e)) l h open_l = absurd (h e refl)

  narrowed :
      {V : Type 0} (f : V → CatchUpEvent) (o : Option V) (e : CatchupComplete)
      → ((v : V) → f v ≢ catchup_complete e)
      → as_catch_up f o ≢ some (catchup_complete e)
  narrowed f none e h = λ p. cc
  narrowed f (some v) e h = λ p. h v (cc)

  event_of_open :
      (n : ℕ) (p : PbCatchUpPayload) (e : CatchupComplete)
      → ((head : ℕ) → p ≢ PbCatchUpPayload.complete head)
      → catch_up_event_of n p ≢ some (catchup_complete e)
  unfolding catch_up_event_of
  event_of_open n (PbCatchUpPayload.message_changed ev) e h = narrowed message_event _ e (λ v q. cc)
  event_of_open n (PbCatchUpPayload.chat_changed ev) e h = narrowed chat_event _ e (λ v q. cc)
  event_of_open n (PbCatchUpPayload.group_changed ev) e h = narrowed group_event _ e (λ v q. cc)
  event_of_open n (PbCatchUpPayload.poll_changed ev) e h = narrowed poll_event _ e (λ v q. cc)
  event_of_open n (PbCatchUpPayload.complete head) e h = absurd (h head refl)
  event_of_open n PbCatchUpPayload.unset e h = λ q. cc

  pub replayed-IsOpen :
      (frames : List PbCatchUpFrame) → All IsEvent frames → IsOpen (replayed frames)
  unfolding kept catch_up_event_from_proto
  replayed-IsOpen [] h = tt
  replayed-IsOpen (f ∷ frames) h =
      IsOpen-cons (catch_up_event_from_proto f) (replayed frames)
        (λ e. event_of_open f.sequence f.payload e h.0) (replayed-IsOpen frames h.1)
