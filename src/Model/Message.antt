-- ===== src/Model/Message.antt =====
-- types_message.go: messages and their parts as the server reports them.
use advanced_imessage_go.Prelude.{Bool, List, Option}
use advanced_imessage_go.Prelude.Int.{ℤ}
use advanced_imessage_go.Prelude.Text.{GoString}
use advanced_imessage_go.Model.Common.{Float64, Handle, Time}
use advanced_imessage_go.Model.Attachment.{AttachmentInfo}
use advanced_imessage_go.Model.Kinds.{MessageItemType, MessageReactionKind}

pub record TextFormat : Type 0 where
  pub type : GoString
  pub start : ℤ
  pub length : ℤ
  pub effect_name : GoString

pub record MessageMention : Type 0 where
  pub address : GoString
  pub start : ℤ
  pub length : ℤ

pub record MiniAppLayoutInfo : Type 0 where
  pub caption : Option GoString
  pub subcaption : Option GoString
  pub trailing_caption : Option GoString
  pub trailing_subcaption : Option GoString
  pub image_title : Option GoString
  pub image_subtitle : Option GoString
  pub summary : Option GoString

pub record MiniAppContent : Type 0 where
  pub team_id : GoString
  pub extension_bundle_id : GoString
  pub app_name : Option GoString
  pub url : Option GoString
  pub session_id : Option GoString
  pub app_store_id : Option ℤ
  pub live : Bool
  pub layout : Option MiniAppLayoutInfo

pub record MessageContent : Type 0 where
  pub text : GoString
  pub attachments : List AttachmentInfo
  pub formatting : List TextFormat
  pub mentions : List MessageMention
  pub balloon_bundle_id : GoString
  pub expressive_send_style_id : GoString
  pub mini_app : Option MiniAppContent

pub record MessageReaction : Type 0 where
  pub kind : MessageReactionKind
  pub emoji : GoString

pub record MessageAppliedReaction : Type 0 where
  pub message_guid : GoString
  pub target_part_index : Option ℤ
  pub reaction : MessageReaction
  pub sender : Option Handle
  pub is_from_me : Bool
  pub date_created : Time

pub record StickerPlacement : Type 0 where
  pub x : Float64
  pub y : Float64
  pub scale : Option Float64
  pub rotation : Option Float64
  pub width : Option Float64

pub record MessagePlacedSticker : Type 0 where
  pub message_guid : GoString
  pub target_part_index : Option ℤ
  pub sender : Option Handle
  pub is_from_me : Bool
  pub date_created : Time
  pub sticker : Option AttachmentInfo
  pub placement : Option StickerPlacement

pub record Message : Type 0 where
  pub guid : GoString
  pub content : MessageContent
  pub subject : GoString
  pub date_created : Time
  pub date_read : Option Time
  pub date_delivered : Option Time
  pub date_edited : Option Time
  pub date_retracted : Option Time
  pub date_played : Option Time
  pub date_expressive_send_played : Option Time
  pub sender : Option Handle
  pub is_from_me : Bool
  pub is_sent : Bool
  pub is_delivered : Bool
  pub is_delivered_quietly : Bool
  pub did_notify_recipient : Bool
  pub send_error_code : ℤ
  pub is_audio_message : Bool
  pub is_auto_reply : Bool
  pub is_system_message : Bool
  pub is_forward : Bool
  pub is_delayed : Bool
  pub is_spam : Bool
  pub data_detector_results_present : Bool
  pub is_archived : Bool
  pub is_service_message : Bool
  pub is_corrupt : Bool
  pub is_expirable : Bool
  pub share_status : Option ℤ
  pub share_direction : Option ℤ
  pub item_type : MessageItemType
  pub group_title : GoString
  pub chat_action_type : Option ℤ
  pub thread_originator_guid : GoString
  pub thread_originator_part : GoString
  pub reply_to_guid : GoString
  pub reply_target_guid : GoString
  pub destination_caller_id : GoString
  pub part_count : Option ℤ
  pub cached_room_names : GoString
  pub reaction_target_guid : GoString
  pub reaction_target_part_index : Option ℤ
  pub reaction : Option MessageReaction
  pub reaction_selected : Option Bool
  pub applied_reactions : List MessageAppliedReaction
  pub placed_stickers : List MessagePlacedSticker
  pub chat_guids : List GoString
