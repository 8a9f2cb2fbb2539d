-- ===== src/Model/Events.antt =====
-- events.go: the event structures and their sealed interfaces.
use advanced_imessage_go.Prelude.{Bool, Option, ℕ}
use advanced_imessage_go.Prelude.Int.{ℤ}
use advanced_imessage_go.Prelude.Text.{GoString}
use advanced_imessage_go.Model.Common.{Handle, Time}
use advanced_imessage_go.Model.Attachment.{AttachmentInfo}
use advanced_imessage_go.Model.Message.{Message, MessageContent, MessageReaction, StickerPlacement}
use advanced_imessage_go.Model.Poll.{PollChangeDelta}
use advanced_imessage_go.Model.Group.{GroupChange}

pub record EventContext : Type 0 where
  pub actor : Option Handle
  pub chat_guid : GoString
  pub is_from_me : Bool
  pub occurred_at : Time

pub record MessageReceived : Type 0 where
  pub event_context : EventContext
  pub sequence : ℕ
  pub message : Message

pub record MessageEdited : Type 0 where
  pub event_context : EventContext
  pub sequence : ℕ
  pub message_guid : GoString
  pub content : MessageContent
  pub edited_at : Time

pub record MessageRead : Type 0 where
  pub event_context : EventContext
  pub sequence : ℕ
  pub message_guid : GoString
  pub read_at : Time

pub record MessageUnsent : Type 0 where
  pub event_context : EventContext
  pub sequence : ℕ
  pub message_guid : GoString
  pub retracted_at : Time

pub record MessageReactionAdded : Type 0 where
  pub event_context : EventContext
  pub sequence : ℕ
  pub message_guid : GoString
  pub reaction : MessageReaction
  pub target_part_index : Option ℤ

pub record MessageReactionRemoved : Type 0 where
  pub event_context : EventContext
  pub sequence : ℕ
  pub message_guid : GoString
  pub reaction : MessageReaction
  pub target_part_index : Option ℤ

pub record MessageStickerPlaced : Type 0 where
  pub event_context : EventContext
  pub sequence : ℕ
  pub message_guid : GoString
  pub sticker : Option AttachmentInfo
  pub placement : Option StickerPlacement
  pub target_part_index : Option ℤ

pub record ChatBackgroundChanged : Type 0 where
  pub event_context : EventContext
  pub sequence : ℕ

pub record ChatBackgroundRemoved : Type 0 where
  pub event_context : EventContext
  pub sequence : ℕ

pub record ChatMarkedRead : Type 0 where
  pub event_context : EventContext
  pub sequence : ℕ

pub record ChatArchived : Type 0 where
  pub event_context : EventContext
  pub sequence : ℕ

pub record ChatUnarchived : Type 0 where
  pub event_context : EventContext
  pub sequence : ℕ

pub record GroupChanged : Type 0 where
  pub event_context : EventContext
  pub sequence : ℕ
  pub change : GroupChange

pub record PollChanged : Type 0 where
  pub event_context : EventContext
  pub sequence : ℕ
  pub poll_message_guid : GoString
  pub delta : PollChangeDelta

pub record CatchupComplete : Type 0 where
  pub head_sequence : ℕ

-- The sealed interface `MessageEvent`.
pub data MessageEvent : Type 0 where
  message_received : MessageReceived → MessageEvent
  message_edited : MessageEdited → MessageEvent
  message_read : MessageRead → MessageEvent
  message_unsent : MessageUnsent → MessageEvent
  message_reaction_added : MessageReactionAdded → MessageEvent
  message_reaction_removed : MessageReactionRemoved → MessageEvent
  message_sticker_placed : MessageStickerPlaced → MessageEvent

-- The sealed interface `ChatEvent`.
pub data ChatEvent : Type 0 where
  chat_background_changed : ChatBackgroundChanged → ChatEvent
  chat_background_removed : ChatBackgroundRemoved → ChatEvent
  chat_marked_read : ChatMarkedRead → ChatEvent
  chat_archived : ChatArchived → ChatEvent
  chat_unarchived : ChatUnarchived → ChatEvent

-- The sealed interfaces `GroupEvent` and `PollEvent`, each with one variant.
abbrev pub GroupEvent : Type 0
GroupEvent = GroupChanged

abbrev pub PollEvent : Type 0
PollEvent = PollChanged

-- The sealed interface `CatchUpEvent`: every variant of the four families, and the completion.
pub data CatchUpEvent : Type 0 where
  message_event : MessageEvent → CatchUpEvent
  chat_event : ChatEvent → CatchUpEvent
  group_event : GroupEvent → CatchUpEvent
  poll_event : PollEvent → CatchUpEvent
  catchup_complete : CatchupComplete → CatchUpEvent
