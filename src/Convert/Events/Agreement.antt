-- ===== src/Convert/Events/Agreement.antt =====
-- What replay and live delivery of the same change have in common: conv_event.go against the
-- event conversions of conv_message.go, conv_chat.go, conv_group.go and conv_poll.go.
use advanced_imessage_go.Prelude.{
  ℕ, Bool, true, false, Option, none, some, is_some, ◌≡◌, refl, arith,
}
use advanced_imessage_go.Model.Events.{
  MessageEvent, message_event, chat_event, group_event, poll_event,
}
use advanced_imessage_go.Wire.Common.{Timestamps}
use advanced_imessage_go.Wire.Changes.{
  PbMessageChange, PbMessageChangeEvent, PbChatChange, PbChatChangeEvent, PbGroupChange,
  PbGroupChangeEvent, PbPollChange, PbPollChangeEvent, PbPayload, PbCatchUpPayload, PbCatchUpFrame,
}
use advanced_imessage_go.Convert.Events.{
  event_context, message_event_of, message_event_from_change, chat_event_of, chat_event_from_change,
  group_change_from_proto, group_event_from_change, poll_event_from_change,
  message_event_from_proto, chat_event_from_proto, group_event_from_proto, poll_event_from_proto,
  as_catch_up, catch_up_event_of, catch_up_event_from_proto,
}
use advanced_imessage_go.Convert.Poll.{poll_delta_from_proto}
use advanced_imessage_go.Resumable.{message_event_meta}

module _ ⦃ts : Timestamps⦄ where
  message_event_of-meta :
      (ev : PbMessageChangeEvent) (n : ℕ) (change : PbMessageChange) {me : MessageEvent}
      → message_event_of (event_context ev.envelope) n change ≡ some me
      → message_event_meta me ≡ (ev.envelope.chat_guid, n)
  unfolding message_event_of event_context message_event_meta
  message_event_of-meta ev n (PbMessageChange.received m) h = ground arith
  message_event_of-meta ev n (PbMessageChange.edited guid content at) h = ground arith
  message_event_of-meta ev n (PbMessageChange.read guid at) h = ground arith
  message_event_of-meta ev n (PbMessageChange.unsent guid at) h = ground arith
  message_event_of-meta ev n (PbMessageChange.reaction_added guid r index) h = ground arith
  message_event_of-meta ev n (PbMessageChange.reaction_removed guid r index) h = ground arith
  message_event_of-meta ev n (PbMessageChange.sticker_placed guid a p index) h = ground arith
  message_event_of-meta ev n PbMessageChange.unset h = cc

  -- The event that a subscription makes of a change is the event that catch-up makes of the same
  -- change at the same sequence, and the chat and the sequence that the resumable engine reads
  -- from it are those of the change and of the frame.
  pub live-replay_message :
      (ev : PbMessageChangeEvent) (n : ℕ) {me : MessageEvent}
      → message_event_from_proto (record { sequence = n; payload = PbPayload.changed (some ev) })
        ≡ some me
      → (catch_up_event_from_proto
            (record { sequence = n; payload = PbCatchUpPayload.message_changed (some ev) })
          ≡ some (message_event me))
        × (message_event_meta me ≡ (ev.envelope.chat_guid, n))
  unfolding message_event_from_proto message_event_from_change catch_up_event_from_proto
      catch_up_event_of
  live-replay_message ev n h = (rw h refl, message_event_of-meta ev n ev.change h)

  -- Chat, group and poll changes, too, are the same event live and in catch-up.
  pub live-replay_others :
      (chat : Option PbChatChangeEvent) (group : Option PbGroupChangeEvent)
      (poll : Option PbPollChangeEvent) (n : ℕ)
      → (catch_up_event_of n (PbCatchUpPayload.chat_changed chat)
          ≡ as_catch_up chat_event
              (chat_event_from_proto (record { sequence = n; payload = PbPayload.changed chat })))
        × (catch_up_event_of n (PbCatchUpPayload.group_changed group)
            ≡ as_catch_up group_event (
                group_event_from_proto
                  (record { sequence = n; payload = PbPayload.changed group })))
        × (catch_up_event_of n (PbCatchUpPayload.poll_changed poll)
            ≡ as_catch_up poll_event
                (poll_event_from_proto (record { sequence = n; payload = PbPayload.changed poll })))
  unfolding catch_up_event_of chat_event_from_proto group_event_from_proto poll_event_from_proto
  live-replay_others chat group poll n = (refl, refl, refl)

-- Whether a change has a kind that the client knows.
abbrev knows_message : Option PbMessageChangeEvent → Bool
knows_message none = false
knows_message (some ev) = elim ev.change [ PbMessageChange.unset ↦ false | _ ↦ true ]

abbrev knows_chat : Option PbChatChangeEvent → Bool
knows_chat none = false
knows_chat (some ev) = elim ev.change [ PbChatChange.unset ↦ false | _ ↦ true ]

abbrev knows_group : Option PbGroupChangeEvent → Bool
knows_group none = false
knows_group (some ev) = elim ev.change [ PbGroupChange.unset ↦ false | _ ↦ true ]

abbrev knows_poll : Option PbPollChangeEvent → Bool
knows_poll none = false
knows_poll (some ev) = elim ev.change [ PbPollChange.unset ↦ false | _ ↦ true ]

-- Whether a payload of catch-up is known: the completion, or a known change of a known family.
unfoldable pub knows : PbCatchUpPayload → Bool
knows (PbCatchUpPayload.message_changed ev) = knows_message ev
knows (PbCatchUpPayload.chat_changed ev) = knows_chat ev
knows (PbCatchUpPayload.group_changed ev) = knows_group ev
knows (PbCatchUpPayload.poll_changed ev) = knows_poll ev
knows (PbCatchUpPayload.complete head) = true
knows PbCatchUpPayload.unset = false

module _ ⦃ts : Timestamps⦄ where
  message_of-knows :
      (ev : Option PbMessageChangeEvent) (n : ℕ)
      → is_some (message_event_from_change ev n) ≡ knows_message ev
  unfolding message_event_from_change message_event_of
  message_of-knows none n = refl
  message_of-knows (some ev) n = ground arith

  chat_of-knows :
      (ev : Option PbChatChangeEvent) (n : ℕ)
      → is_some (chat_event_from_change ev n) ≡ knows_chat ev
  unfolding chat_event_from_change chat_event_of
  chat_of-knows none n = refl
  chat_of-knows (some ev) n = ground arith

  group_of-knows :
      (ev : Option PbGroupChangeEvent) (n : ℕ)
      → is_some (group_event_from_change ev n) ≡ knows_group ev
  unfolding group_event_from_change group_change_from_proto
  group_of-knows none n = refl
  group_of-knows (some ev) n = ground arith

  poll_of-knows :
      (ev : Option PbPollChangeEvent) (n : ℕ)
      → is_some (poll_event_from_change ev n) ≡ knows_poll ev
  unfolding poll_event_from_change poll_delta_from_proto
  poll_of-knows none n = refl
  poll_of-knows (some ev) n = ground arith

  catch_up_event_of-knows :
      (n : ℕ) (payload : PbCatchUpPayload) → is_some (catch_up_event_of n payload) ≡ knows payload
  unfolding catch_up_event_of knows
  catch_up_event_of-knows n (PbCatchUpPayload.message_changed ev) =
      ground (arith, message_of-knows ev n)
  catch_up_event_of-knows n (PbCatchUpPayload.chat_changed ev) = ground (arith, chat_of-knows ev n)
  catch_up_event_of-knows n (PbCatchUpPayload.group_changed ev) =
      ground (arith, group_of-knows ev n)
  catch_up_event_of-knows n (PbCatchUpPayload.poll_changed ev) = ground (arith, poll_of-knows ev n)
  catch_up_event_of-knows n (PbCatchUpPayload.complete head) = refl
  catch_up_event_of-knows n PbCatchUpPayload.unset = refl

  -- Catch-up drops a frame exactly when the client does not know its payload: no family, no change
  -- or a change of no kind. Every other frame becomes an event, so no known change is lost.
  pub catch_up_event-knows :
      (frame : PbCatchUpFrame) → is_some (catch_up_event_from_proto frame) ≡ knows frame.payload
  unfolding catch_up_event_from_proto
  catch_up_event-knows frame = catch_up_event_of-knows frame.sequence frame.payload
