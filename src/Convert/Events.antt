-- ===== src/Convert/Events.antt =====
-- The event conversions of conv_message.go, conv_chat.go, conv_group.go, conv_poll.go and
-- conv_event.go. A result of `none` is `(nil, false)`: the frame is dropped.
pub mod Agreement
use advanced_imessage_go.Prelude.{ℕ, Option, none, some}
use advanced_imessage_go.Prelude.Text.{GoString}
use advanced_imessage_go.Model.Events.{
  EventContext, MessageEvent, message_received, message_edited, message_read, message_unsent,
  message_reaction_added, message_reaction_removed, message_sticker_placed, ChatEvent,
  chat_background_changed, chat_background_removed, chat_marked_read, chat_archived,
  chat_unarchived, GroupEvent, PollEvent, CatchUpEvent, message_event, chat_event, group_event,
  poll_event, catchup_complete,
}
use advanced_imessage_go.Model.Group.{
  GroupChange, display_name_changed, participant_added, participant_removed, participant_left,
  icon_changed, icon_removed,
}
use advanced_imessage_go.Model.Poll.{PollChangeDelta}
use advanced_imessage_go.Wire.Common.{Timestamps}
use advanced_imessage_go.Wire.Changes.{
  PbEnvelope, PbMessageChange, PbMessageChangeEvent, PbChatChange, PbChatChangeEvent, PbGroupChange,
  PbGroupChangeEvent, PbPollChange, PbPollChangeEvent, PbPayload, PbFrame, PbCatchUpPayload,
  PbCatchUpFrame,
}
use advanced_imessage_go.Convert.Common.{
  if_present, time_from_proto, ptr_int, handle_from_proto, handle_ptr_from_proto,
  reaction_from_proto,
}
use advanced_imessage_go.Convert.Attachment.{attachment_info_ptr_from_proto}
use advanced_imessage_go.Convert.Content.{message_content_from_proto, sticker_placement_from_proto}
use advanced_imessage_go.Convert.Message.{message_from_proto}
use advanced_imessage_go.Convert.Poll.{poll_delta_from_proto}

unfoldable pub group_change_from_proto : PbGroupChange → Option GroupChange
group_change_from_proto (PbGroupChange.display_name_changed name) =
    some (display_name_changed (record { display_name = name }))
group_change_from_proto (PbGroupChange.participant_added p) =
    some (participant_added (record { participant = handle_from_proto p }))
group_change_from_proto (PbGroupChange.participant_removed p) =
    some (participant_removed (record { participant = handle_from_proto p }))
group_change_from_proto (PbGroupChange.participant_left p) =
    some (participant_left (record { participant = handle_from_proto p }))
group_change_from_proto PbGroupChange.icon_changed = some icon_changed
group_change_from_proto PbGroupChange.icon_removed = some icon_removed
group_change_from_proto PbGroupChange.unset = none

module _ ⦃ts : Timestamps⦄ where
  unfoldable pub event_context : PbEnvelope → EventContext
  event_context e = record {
    actor = handle_ptr_from_proto e.actor;
    chat_guid = e.chat_guid;
    is_from_me = e.is_from_me;
    occurred_at = time_from_proto e.occurred_at;
  }

  -- The `switch` of `messageEventFromChange`.
  unfoldable pub message_event_of : EventContext → ℕ → PbMessageChange → Option MessageEvent
  message_event_of ctx n (PbMessageChange.received m) = some (
      message_received
        (record { event_context = ctx; sequence = n; message = message_from_proto m }))
  message_event_of ctx n (PbMessageChange.edited guid content at) = some (
      message_edited (record {
        event_context = ctx;
        sequence = n;
        message_guid = guid;
        content = message_content_from_proto content;
        edited_at = time_from_proto at;
      }))
  message_event_of ctx n (PbMessageChange.read guid at) = some (
      message_read (record {
        event_context = ctx;
        sequence = n;
        message_guid = guid;
        read_at = time_from_proto at;
      }))
  message_event_of ctx n (PbMessageChange.unsent guid at) = some (
      message_unsent (record {
        event_context = ctx;
        sequence = n;
        message_guid = guid;
        retracted_at = time_from_proto at;
      }))
  message_event_of ctx n (PbMessageChange.reaction_added guid r index) = some (
      message_reaction_added (record {
        event_context = ctx;
        sequence = n;
        message_guid = guid;
        reaction = reaction_from_proto r;
        target_part_index = if_present ptr_int index;
      }))
  message_event_of ctx n (PbMessageChange.reaction_removed guid r index) = some (
      message_reaction_removed (record {
        event_context = ctx;
        sequence = n;
        message_guid = guid;
        reaction = reaction_from_proto r;
        target_part_index = if_present ptr_int index;
      }))
  message_event_of ctx n (PbMessageChange.sticker_placed guid a p index) = some (
      message_sticker_placed (record {
        event_context = ctx;
        sequence = n;
        message_guid = guid;
        sticker = attachment_info_ptr_from_proto a;
        placement = sticker_placement_from_proto p;
        target_part_index = if_present ptr_int index;
      }))
  message_event_of ctx n PbMessageChange.unset = none

  unfoldable pub message_event_from_change : Option PbMessageChangeEvent → ℕ → Option MessageEvent
  unfolding event_context message_event_of
  message_event_from_change none n = none
  message_event_from_change (some ev) n = message_event_of (event_context ev.envelope) n ev.change

  -- The `switch` of `chatEventFromChange`.
  unfoldable pub chat_event_of : EventContext → ℕ → PbChatChange → Option ChatEvent
  chat_event_of ctx n PbChatChange.background_changed =
      some (chat_background_changed (record { event_context = ctx; sequence = n }))
  chat_event_of ctx n PbChatChange.background_removed =
      some (chat_background_removed (record { event_context = ctx; sequence = n }))
  chat_event_of ctx n PbChatChange.marked_read =
      some (chat_marked_read (record { event_context = ctx; sequence = n }))
  chat_event_of ctx n PbChatChange.archived =
      some (chat_archived (record { event_context = ctx; sequence = n }))
  chat_event_of ctx n PbChatChange.unarchived =
      some (chat_unarchived (record { event_context = ctx; sequence = n }))
  chat_event_of ctx n PbChatChange.unset = none

  unfoldable pub chat_event_from_change : Option PbChatChangeEvent → ℕ → Option ChatEvent
  unfolding event_context chat_event_of
  chat_event_from_change none n = none
  chat_event_from_change (some ev) n = chat_event_of (event_context ev.envelope) n ev.change

  abbrev group_event_of : EventContext → ℕ → Option GroupChange → Option GroupEvent
  group_event_of ctx n none = none
  group_event_of ctx n (some change) =
      some (record { event_context = ctx; sequence = n; change = change })

  unfoldable pub group_event_from_change : Option PbGroupChangeEvent → ℕ → Option GroupEvent
  unfolding event_context group_change_from_proto
  group_event_from_change none n = none
  group_event_from_change (some ev) n =
      group_event_of (event_context ev.envelope) n (group_change_from_proto ev.change)

  abbrev poll_event_of : EventContext → ℕ → GoString → Option PollChangeDelta → Option PollEvent
  poll_event_of ctx n guid none = none
  poll_event_of ctx n guid (some delta) =
      some (record { event_context = ctx; sequence = n; poll_message_guid = guid; delta = delta })

  unfoldable pub poll_event_from_change : Option PbPollChangeEvent → ℕ → Option PollEvent
  unfolding event_context poll_delta_from_proto
  poll_event_from_change none n = none
  poll_event_from_change (some ev) n =
      poll_event_of (event_context ev.envelope) n ev.poll_message_guid
        (poll_delta_from_proto ev.change)

  -- A frame of a subscription: only a change can become an event; heartbeats and payloads that
  -- the client does not know are dropped.
  abbrev from_payload : {E V : Type 0} → (Option E → ℕ → Option V) → PbFrame E → Option V
  from_payload convert frame = elim frame.payload [
    | PbPayload.changed ev ↦ convert ev frame.sequence
    | PbPayload.heartbeat ↦ none
    | PbPayload.unset ↦ none
  ]

  unfoldable pub message_event_from_proto : PbFrame PbMessageChangeEvent → Option MessageEvent
  message_event_from_proto = from_payload message_event_from_change

  unfoldable pub chat_event_from_proto : PbFrame PbChatChangeEvent → Option ChatEvent
  chat_event_from_proto = from_payload chat_event_from_change

  unfoldable pub group_event_from_proto : PbFrame PbGroupChangeEvent → Option GroupEvent
  group_event_from_proto = from_payload group_event_from_change

  unfoldable pub poll_event_from_proto : PbFrame PbPollChangeEvent → Option PollEvent
  poll_event_from_proto = from_payload poll_event_from_change

  -- `asCatchUp`: every variant is a catch-up event, so the narrowing does not fail.
  abbrev pub as_catch_up : {V : Type 0} → (V → CatchUpEvent) → Option V → Option CatchUpEvent
  as_catch_up narrow none = none
  as_catch_up narrow (some ev) = some (narrow ev)

  unfoldable pub catch_up_event_of : ℕ → PbCatchUpPayload → Option CatchUpEvent
  catch_up_event_of n (PbCatchUpPayload.message_changed ev) =
      as_catch_up message_event (message_event_from_change ev n)
  catch_up_event_of n (PbCatchUpPayload.chat_changed ev) =
      as_catch_up chat_event (chat_event_from_change ev n)
  catch_up_event_of n (PbCatchUpPayload.group_changed ev) =
      as_catch_up group_event (group_event_from_change ev n)
  catch_up_event_of n (PbCatchUpPayload.poll_changed ev) =
      as_catch_up poll_event (poll_event_from_change ev n)
  catch_up_event_of n (PbCatchUpPayload.complete head) =
      some (catchup_complete (record { head_sequence = head }))
  catch_up_event_of n PbCatchUpPayload.unset = none

  unfoldable pub catch_up_event_from_proto : PbCatchUpFrame → Option CatchUpEvent
  unfolding catch_up_event_of
  catch_up_event_from_proto frame = catch_up_event_of frame.sequence frame.payload
