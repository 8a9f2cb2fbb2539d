-- ===== src/Wire/Requests.antt =====
-- The request messages of the protocol that the message service fills in. A field with presence
-- is an `Option`: `none` where the setter was not called.
use advanced_imessage_go.Prelude.{Bool, List, Option}
use advanced_imessage_go.Prelude.Int.{ℤ}
use advanced_imessage_go.Prelude.Text.{GoString}
use advanced_imessage_go.Wire.Common.{Timestamp, PbReaction, PbPlacement}
use advanced_imessage_go.Wire.Message.{PbTextFormat, PbMessage}

pub record PbReplyTarget : Type 0 where
  pub message_guid : GoString
  pub target_part_index : Option ℤ

pub record PbMessageTarget : Type 0 where
  pub chat_guid : GoString
  pub message_guid : GoString
  pub target_part_index : Option ℤ

pub record PbAttachmentRef : Type 0 where
  pub attachment_guid : GoString
  pub attachment_name : Option GoString

pub record PbMessagePart : Type 0 where
  pub text : Option GoString
  pub attachment : Option PbAttachmentRef
  pub mentioned_address : Option GoString
  pub bubble_index : Option ℤ
  pub formatting : List PbTextFormat

pub record PbSendText : Type 0 where
  pub chat_guid : GoString
  pub text : GoString
  pub reply_to : Option PbReplyTarget
  pub subject : Option GoString
  pub effect_id : Option GoString
  pub enable_data_detection : Option Bool
  pub enable_link_preview : Option Bool
  pub formatting : List PbTextFormat
  pub client_message_id : Option GoString

pub record PbSendAttachment : Type 0 where
  pub chat_guid : GoString
  pub attachment : PbAttachmentRef
  pub reply_to : Option PbReplyTarget
  pub effect_id : Option GoString
  pub is_audio_message : Option Bool
  pub client_message_id : Option GoString

pub record PbSendMultipart : Type 0 where
  pub chat_guid : GoString
  pub parts : List PbMessagePart
  pub reply_to : Option PbReplyTarget
  pub subject : Option GoString
  pub effect_id : Option GoString
  pub enable_data_detection : Option Bool
  pub client_message_id : Option GoString

pub record PbEdit : Type 0 where
  pub target : PbMessageTarget
  pub new_text : GoString
  pub backward_compat_text : Option GoString
  pub client_message_id : Option GoString

pub record PbUnsend : Type 0 where
  pub target : PbMessageTarget
  pub client_message_id : Option GoString

pub record PbSetReaction : Type 0 where
  pub target : PbMessageTarget
  pub reaction : PbReaction
  pub is_set : Bool
  pub client_message_id : Option GoString

pub record PbPlaceSticker : Type 0 where
  pub target : PbMessageTarget
  pub sticker : PbAttachmentRef
  pub placement : PbPlacement
  pub client_message_id : Option GoString

pub record PbNotifySilenced : Type 0 where
  pub chat_guid : GoString
  pub message_guid : GoString
  pub client_message_id : Option GoString

pub record PbMiniAppLayout : Type 0 where
  pub caption : Option GoString
  pub subcaption : Option GoString
  pub trailing_caption : Option GoString
  pub trailing_subcaption : Option GoString
  pub image_title : Option GoString
  pub image_subtitle : Option GoString
  pub summary : Option GoString
  pub image : Option GoString

pub record PbSendMiniApp : Type 0 where
  pub chat_guid : GoString
  pub team_id : GoString
  pub extension_bundle_id : GoString
  pub app_name : GoString
  pub url : GoString
  pub layout : PbMiniAppLayout
  pub app_store_id : Option ℤ
  pub client_message_id : Option GoString

-- The setters that the two list requests share.
pub record PbListFilter : Type 0 where
  pub page_size : Option ℤ
  pub page_token : Option GoString
  pub is_from_me : Option Bool
  pub is_read : Option Bool
  pub before : Option Timestamp
  pub after : Option Timestamp

-- The two list responses.
pub record PbListMessages : Type 0 where
  pub messages : List (Option PbMessage)
  pub next_page_token : GoString

pub record PbEmbeddedMedia : Type 0 where
  pub contents : GoString
  pub mime_type : GoString
