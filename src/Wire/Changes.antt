-- ===== src/Wire/Changes.antt =====
-- The change events of the protocol and the frames of its event streams.
use advanced_imessage_go.Prelude.{ℕ, Bool, List, Option}
use advanced_imessage_go.Prelude.Int.{ℤ}
use advanced_imessage_go.Prelude.Text.{GoString}
use advanced_imessage_go.Wire.Common.{
  Timestamp, SingleServiceAddressInfo, PbAttachmentInfo, PbReaction, PbPlacement,
}
use advanced_imessage_go.Wire.Message.{PbContent, PbMessage}

-- The fields that every change event has.
pub record PbEnvelope : Type 0 where
  pub actor : Option SingleServiceAddressInfo
  pub chat_guid : GoString
  pub is_from_me : Bool
  pub occurred_at : Option Timestamp

-- The oneof `change` of `MessageChangeEvent`.
pub data PbMessageChange : Type 0 where
  received : Option PbMessage → PbMessageChange
  edited : (message_guid : GoString) → Option PbContent → Option Timestamp → PbMessageChange
  read : (message_guid : GoString) → Option Timestamp → PbMessageChange
  unsent : (message_guid : GoString) → Option Timestamp → PbMessageChange
  reaction_added : (message_guid : GoString) → Option PbReaction → Option ℤ → PbMessageChange
  reaction_removed : (message_guid : GoString) → Option PbReaction → Option ℤ → PbMessageChange
  sticker_placed :
      (message_guid : GoString)
      → Option PbAttachmentInfo
      → Option PbPlacement
      → Option ℤ
      → PbMessageChange
  unset : PbMessageChange

pub record PbMessageChangeEvent : Type 0 where
  pub envelope : PbEnvelope
  pub change : PbMessageChange

pub data PbChatChange : Type 0 where
  background_changed background_removed marked_read archived unarchived : PbChatChange
  unset : PbChatChange

pub record PbChatChangeEvent : Type 0 where
  pub envelope : PbEnvelope
  pub change : PbChatChange

pub data PbGroupChange : Type 0 where
  display_name_changed : GoString → PbGroupChange
  participant_added participant_removed participant_left :
      Option SingleServiceAddressInfo → PbGroupChange
  icon_changed icon_removed : PbGroupChange
  unset : PbGroupChange

pub record PbGroupChangeEvent : Type 0 where
  pub envelope : PbEnvelope
  pub change : PbGroupChange

pub record PbPollOption : Type 0 where
  pub option_identifier : GoString
  pub text : GoString
  pub creator_handle : GoString

pub record PbPollVote : Type 0 where
  pub participant : Option SingleServiceAddressInfo
  pub option_identifier : GoString

pub record PbPoll : Type 0 where
  pub poll_message_guid : GoString
  pub chat_guid : GoString
  pub title : GoString
  pub options : List PbPollOption
  pub votes : List PbPollVote

pub data PbPollChange : Type 0 where
  created : GoString → List PbPollOption → PbPollChange
  option_added : GoString → List PbPollOption → PbPollChange
  voted : GoString → PbPollChange
  unvoted : GoString → PbPollChange
  unset : PbPollChange

pub record PbPollChangeEvent : Type 0 where
  pub envelope : PbEnvelope
  pub poll_message_guid : GoString
  pub change : PbPollChange

-- The frame of a subscription whose change events are `E`: a sequence number and the payload.
pub data PbPayload (E : Type 0) : Type 0 where
  changed : Option E → PbPayload E
  heartbeat : PbPayload E
  unset : PbPayload E

pub record PbFrame (E : Type 0) : Type 0 where
  pub sequence : ℕ
  pub payload : PbPayload E

-- The frame of `CatchUpEventsResponse`.
pub data PbCatchUpPayload : Type 0 where
  message_changed : Option PbMessageChangeEvent → PbCatchUpPayload
  chat_changed : Option PbChatChangeEvent → PbCatchUpPayload
  group_changed : Option PbGroupChangeEvent → PbCatchUpPayload
  poll_changed : Option PbPollChangeEvent → PbCatchUpPayload
  complete : (head_sequence : ℕ) → PbCatchUpPayload
  unset : PbCatchUpPayload

pub record PbCatchUpFrame : Type 0 where
  pub sequence : ℕ
  pub payload : PbCatchUpPayload
