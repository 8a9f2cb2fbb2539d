-- ===== src/Examples/Conversions.antt =====
-- Conversions of protocol messages.
use advanced_imessage_go.Prelude.{
  ℕ, List, [], ◌∷◌, map, true, false, Option, none, some, is_some, ◌≡◌, refl,
}
use advanced_imessage_go.Prelude.Text.{GoString, bytes}
use advanced_imessage_go.Model.Common.{zero_time}
use advanced_imessage_go.Prelude.Int.{pos}
use advanced_imessage_go.Model.Events.{MessageEvent, message_read, message_event}
use advanced_imessage_go.Wire.Common.{Timestamps, PbServiceType}
use advanced_imessage_go.Wire.Message.{PbAppliedReaction, PbPlacedSticker}
use advanced_imessage_go.Wire.Changes.{
  PbEnvelope, PbMessageChange, PbMessageChangeEvent, PbChatChange, PbChatChangeEvent, PbPayload,
  PbCatchUpPayload, PbCatchUpFrame, PbPoll, PbPollVote,
}
use advanced_imessage_go.Convert.Common.{handle_ptr_from_proto, time_from_proto}
use advanced_imessage_go.Convert.Content.{
  applied_reaction_from_proto, applied_reactions_from_proto, placed_sticker_from_proto,
  placed_stickers_from_proto,
}
use advanced_imessage_go.Convert.Content.Sorted.{
  IsSortedCopy, ReactionLe, StickerLe, VoteLe, converted_lists_IsSortedCopy,
}
use advanced_imessage_go.Convert.Poll.{poll_vote_from_proto, poll_from_proto}
use advanced_imessage_go.Convert.Events.{
  event_context, message_event_of, message_event_from_proto, message_event_from_change,
  catch_up_event_from_proto,
}
use advanced_imessage_go.Convert.Events.Agreement.{live-replay_message, catch_up_event-knows, knows}
use advanced_imessage_go.Resumable.{message_event_meta}

-- Nanoseconds since the epoch, for times after it.
abbrev clock : Timestamps
clock = record {
  as_time = λ t. t.seconds;
  new_timestamp = λ t. record { seconds = t; nanos = pos 0 };
}

abbrev envelope : PbEnvelope
envelope = record {
  actor = none;
  chat_guid = bytes "iMessage;-;a";
  is_from_me = false;
  occurred_at = none;
}

abbrev read_change : PbMessageChangeEvent
read_change = record {
  envelope = envelope;
  change = PbMessageChange.read (bytes "m1") (some (record { seconds = pos 5; nanos = pos 0 }));
}

abbrev read_event : MessageEvent
read_event = message_read (record {
  event_context = record {
    actor = none;
    chat_guid = bytes "iMessage;-;a";
    is_from_me = false;
    occurred_at = zero_time;
  };
  sequence = 7;
  message_guid = bytes "m1";
  read_at = pos 5;
})

read_frame :
    message_event_from_proto ⦃ts = clock⦄
      (record { sequence = 7; payload = PbPayload.changed (some read_change) })
    ≡ some read_event
unfolding message_event_from_proto message_event_from_change message_event_of event_context
    handle_ptr_from_proto time_from_proto
read_frame = refl

live-replay_message_example :
    (catch_up_event_from_proto ⦃ts = clock⦄
        (record { sequence = 7; payload = PbCatchUpPayload.message_changed (some read_change) })
      ≡ some (message_event read_event))
    × (message_event_meta read_event ≡ (bytes "iMessage;-;a", 7))
live-replay_message_example =
    live-replay_message ⦃ts = clock⦄ read_change 7 {me = read_event} read_frame

abbrev archived : Option PbChatChangeEvent
archived = some (record { envelope = envelope; change = PbChatChange.archived })

abbrev archived_frame : PbCatchUpFrame
archived_frame = record { sequence = 7; payload = PbCatchUpPayload.chat_changed archived }

catch_up_event-knows_example :
    is_some (catch_up_event_from_proto ⦃ts = clock⦄ archived_frame) ≡ knows archived_frame.payload
catch_up_event-knows_example = catch_up_event-knows ⦃ts = clock⦄ archived_frame

abbrev reaction_at : GoString → ℕ → PbAppliedReaction
reaction_at guid n = record {
  message_guid = guid;
  reaction = none;
  sender = none;
  is_from_me = true;
  date_created = some (record { seconds = pos n; nanos = pos 0 });
  target_part_index = none;
}

abbrev sticker_at : GoString → ℕ → PbPlacedSticker
sticker_at guid n = record {
  message_guid = guid;
  sender = none;
  is_from_me = true;
  date_created = some (record { seconds = pos n; nanos = pos 0 });
  target_part_index = none;
  sticker = none;
  placement = none;
}

abbrev late_reaction : PbAppliedReaction
late_reaction = reaction_at (bytes "a") 9

abbrev early_reaction : PbAppliedReaction
early_reaction = reaction_at (bytes "b") 3

abbrev late_sticker : PbPlacedSticker
late_sticker = sticker_at (bytes "a") 9

abbrev early_sticker : PbPlacedSticker
early_sticker = sticker_at (bytes "b") 3

abbrev vote_of : GoString → GoString → PbPollVote
vote_of who option = record {
  participant = some (record { address = who; service = PbServiceType.imessage; country = [] });
  option_identifier = option;
}

abbrev poll_of : List PbPollVote → PbPoll
poll_of votes = record {
  poll_message_guid = bytes "p";
  chat_guid = [];
  title = [];
  options = [];
  votes = votes;
}

abbrev votes : List PbPollVote
votes = vote_of (bytes "b") (bytes "x") ∷ vote_of (bytes "a") (bytes "x") ∷ []

converted_lists_IsSortedCopy_example :
    IsSortedCopy ReactionLe
      (applied_reactions_from_proto ⦃ts = clock⦄ (late_reaction ∷ early_reaction ∷ []))
      (map (applied_reaction_from_proto ⦃ts = clock⦄) (late_reaction ∷ early_reaction ∷ []))
    × IsSortedCopy StickerLe
        (placed_stickers_from_proto ⦃ts = clock⦄ (late_sticker ∷ early_sticker ∷ []))
        (map (placed_sticker_from_proto ⦃ts = clock⦄) (late_sticker ∷ early_sticker ∷ []))
    × IsSortedCopy VoteLe
        (poll_from_proto (some (poll_of votes))).votes
        (map poll_vote_from_proto votes)
converted_lists_IsSortedCopy_example =
    converted_lists_IsSortedCopy ⦃ts = clock⦄ (late_reaction ∷ early_reaction ∷ [])
      (late_sticker ∷ early_sticker ∷ []) (poll_of votes)
