-- ===== src/Wire/Message.antt =====
-- Messages and chats of the protocol.
use advanced_imessage_go.Prelude.{Bool, List, Option}
use advanced_imessage_go.Prelude.Int.{ℤ}
use advanced_imessage_go.Prelude.Text.{GoString}
use advanced_imessage_go.Wire.Common.{
  Timestamp, PbServiceType, PbItemType, SingleServiceAddressInfo, PbAttachmentInfo, PbReaction,
  PbPlacement,
}

pub record PbTextFormat : Type 0 where
  pub format_type : GoString
  pub start : ℤ
  pub length : ℤ
  pub effect_name : GoString

pub record PbMention : Type 0 where
  pub address : GoString
  pub start : ℤ
  pub length : ℤ

pub record PbLayoutInfo : Type 0 where
  pub caption : Option GoString
  pub subcaption : Option GoString
  pub trailing_caption : Option GoString
  pub trailing_subcaption : Option GoString
  pub image_title : Option GoString
  pub image_subtitle : Option GoString
  pub summary : Option GoString

pub record PbMiniApp : Type 0 where
  pub team_id : GoString
  pub extension_bundle_id : GoString
  pub live : Bool
  pub app_name : Option GoString
  pub url : Option GoString
  pub session_id : Option GoString
  pub app_store_id : Option ℤ
  pub layout : Option PbLayoutInfo

pub record PbContent : Type 0 where
  pub text : GoString
  pub balloon_bundle_id : GoString
  pub expressive_send_style_id : GoString
  pub attachments : List (Option PbAttachmentInfo)
  pub formatting : List PbTextFormat
  pub mentions : List PbMention
  pub mini_app : Option PbMiniApp

pub record PbAppliedReaction : Type 0 where
  pub message_guid : GoString
  pub reaction : Option PbReaction
  pub sender : Option SingleServiceAddressInfo
  pub is_from_me : Bool
  pub date_created : Option Timestamp
  pub target_part_index : Option ℤ

pub record PbPlacedSticker : Type 0 where
  pub message_guid : GoString
  pub sender : Option SingleServiceAddressInfo
  pub is_from_me : Bool
  pub date_created : Option Timestamp
  pub sticker : Option PbAttachmentInfo
  pub placement : Option PbPlacement
  pub target_part_index : Option ℤ

pub record PbMessage : Type 0 where
  pub guid : GoString
  pub content : Option PbContent
  pub subject : GoString
  pub date_created : Option Timestamp
  pub date_read : Option Timestamp
  pub date_delivered : Option Timestamp
  pub date_edited : Option Timestamp
  pub date_retracted : Option Timestamp
  pub date_played : Option Timestamp
  pub date_expressive_send_played : Option Timestamp
  pub sender : Option SingleServiceAddressInfo
  pub is_from_me : Bool
  pub is_sent : Bool
  pub is_delivered : Bool
  pub is_delivered_quietly : Bool
  pub did_notify_recipient : Bool
  pub send_error_code : ℤ
  pub is_audio_message : Bool
  pub is_auto_reply : Bool
  pub is_system_message : Bool
  pub is_forward : Bool
  pub is_delayed : Bool
  pub is_spam : Bool
  pub data_detector_results_present : Bool
  pub is_archived : Bool
  pub is_service_message : Bool
  pub is_corrupt : Bool
  pub is_expirable : Bool
  pub share_status : Option ℤ
  pub share_direction : Option ℤ
  pub item_type : PbItemType
  pub group_title : GoString
  pub chat_action_type : Option ℤ
  pub thread_originator_guid : GoString
  pub thread_originator_part : GoString
  pub reply_to_guid : GoString
  pub reply_target_guid : GoString
  pub destination_caller_id : GoString
  pub part_count : Option ℤ
  pub cached_room_names : GoString
  pub reaction_target_guid : GoString
  pub reaction_target_part_index : Option ℤ
  pub reaction : Option PbReaction
  pub reaction_selected : Option Bool
  pub applied_reactions : List PbAppliedReaction
  pub placed_stickers : List PbPlacedSticker
  pub chat_guids : List GoString

pub record PbChat : Type 0 where
  pub guid : GoString
  pub chat_identifier : GoString
  pub group_id : GoString
  pub display_name : GoString
  pub is_group : Bool
  pub service : PbServiceType
  pub is_archived : Bool
  pub is_filtered : Bool
  pub last_message : Option PbMessage
  pub unread_count : Option ℤ
  pub participants : List (Option SingleServiceAddressInfo)
