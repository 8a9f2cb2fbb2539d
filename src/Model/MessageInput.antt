-- ===== src/Model/MessageInput.antt =====
-- types_message.go: what callers hand to the message operations, and their results.
use advanced_imessage_go.Prelude.{Bool, List, Option}
use advanced_imessage_go.Prelude.Int.{ℤ}
use advanced_imessage_go.Prelude.Text.{GoString}
use advanced_imessage_go.Model.Common.{Time}
use advanced_imessage_go.Model.Effects.{MessageEffect, TextEffect, TextFormatKind}
use advanced_imessage_go.Model.Kinds.{MessageReactionKind}
use advanced_imessage_go.Model.Message.{Message, StickerPlacement}

pub record StickerInput : Type 0 where
  pub guid : GoString
  pub placement : StickerPlacement

pub record TextFormatInput : Type 0 where
  pub kind : TextFormatKind
  pub start : ℤ
  pub length : ℤ
  pub effect : TextEffect

pub record MessagePart : Type 0 where
  pub text : GoString
  pub attachment_guid : GoString
  pub attachment_name : GoString
  pub mentioned_address : GoString
  pub bubble_index : Option ℤ
  pub formatting : List TextFormatInput

pub record ReplyTarget : Type 0 where
  pub guid : GoString
  pub part_index : Option ℤ

pub record Reaction : Type 0 where
  pub kind : MessageReactionKind
  pub emoji : GoString

pub record EmbeddedMedia : Type 0 where
  pub contents : GoString
  pub mime_type : GoString

pub record IdempotencyOptions : Type 0 where
  pub client_message_id : GoString

pub record SendTextOptions : Type 0 where
  pub reply_to : Option ReplyTarget
  pub subject : GoString
  pub effect : MessageEffect
  pub enable_data_detection : Bool
  pub enable_link_preview : Bool
  pub formatting : List TextFormatInput
  pub client_message_id : GoString

pub record SendAttachmentOptions : Type 0 where
  pub reply_to : Option ReplyTarget
  pub effect : MessageEffect
  pub is_audio_message : Bool
  pub client_message_id : GoString

pub record SendMultipartOptions : Type 0 where
  pub reply_to : Option ReplyTarget
  pub subject : GoString
  pub effect : MessageEffect
  pub enable_data_detection : Bool
  pub client_message_id : GoString

pub record EditOptions : Type 0 where
  pub backward_compat_text : GoString
  pub part_index : Option ℤ
  pub client_message_id : GoString

pub record PartOptions : Type 0 where
  pub part_index : Option ℤ
  pub client_message_id : GoString

pub record MiniAppLayout : Type 0 where
  pub caption : GoString
  pub subcaption : GoString
  pub trailing_caption : GoString
  pub trailing_subcaption : GoString
  pub image_title : GoString
  pub image_subtitle : GoString
  pub summary : GoString
  pub image : GoString

pub record CustomizedMiniAppMessage : Type 0 where
  pub app_name : GoString
  pub extension_bundle_id : GoString
  pub team_id : GoString
  pub url : GoString
  pub app_store_id : Option ℤ
  pub layout : MiniAppLayout

pub record MessageListFilter : Type 0 where
  pub before : Option Time
  pub after : Option Time
  pub is_from_me : Option Bool
  pub is_read : Option Bool
  pub page_size : ℤ
  pub page_token : GoString

pub record MessageListPage : Type 0 where
  pub messages : List Message
  pub next_page_token : GoString
