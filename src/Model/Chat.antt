-- ===== src/Model/Chat.antt =====
-- types_chat.go.
use advanced_imessage_go.Prelude.{Bool, List, Option}
use advanced_imessage_go.Prelude.Int.{ℤ}
use advanced_imessage_go.Prelude.Text.{GoString}
use advanced_imessage_go.ChatGuid.{ChatGuid}
use advanced_imessage_go.Model.Common.{ChatServiceType, Handle}
use advanced_imessage_go.Model.Effects.{MessageEffect}
use advanced_imessage_go.Model.Message.{Message}

pub record Chat : Type 0 where
  pub guid : ChatGuid
  pub chat_identifier : GoString
  pub group_id : GoString
  pub display_name : GoString
  pub is_group : Bool
  pub service : ChatServiceType
  pub is_archived : Bool
  pub is_filtered : Bool
  pub unread_count : Option ℤ
  pub participants : List Handle
  pub last_message : Option Message

pub record CreateChatOptions : Type 0 where
  pub message : GoString
  pub attributed_body : GoString
  pub effect : MessageEffect
  pub subject : GoString
  pub client_message_id : GoString

pub record CreateChatResult : Type 0 where
  pub chat : Chat
  pub initial_message : Option Message
