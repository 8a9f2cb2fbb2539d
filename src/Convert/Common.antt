-- ===== src/Convert/Common.antt =====
-- conv_common.go: times, addresses and enumerations.
pub mod Kinds
use advanced_imessage_go.Prelude.{
  ℕ, List, [], ◌∷◌, Bool, true, false, Option, none, some, map, if◌then◌else◌,
}
use advanced_imessage_go.Prelude.Int.{ℤ}
use advanced_imessage_go.Prelude.Text.{GoString, str_eq}
use advanced_imessage_go.Model.Common.{
  Time, zero_time, Float64, ChatServiceType, service_imessage, service_sms, service_rcs,
  service_unknown, Handle, AddressInfo,
}
use advanced_imessage_go.Model.Attachment.{
  TransferState, transfer_state_pending, transfer_state_transferring, transfer_state_failed,
  transfer_state_finished, transfer_state_unavailable, transfer_state_unknown, CompanionKind,
  companion_live_photo_video, companion_unknown,
}
use advanced_imessage_go.Model.Kinds.{
  MessageItemType, item_normal, item_participant_change, item_group_name_change, item_chat_action,
  item_unknown, MessageReactionKind, reaction_love, reaction_like, reaction_dislike, reaction_laugh,
  reaction_emphasize, reaction_question, reaction_emoji, reaction_sticker, reaction_unknown,
}
use advanced_imessage_go.Model.Message.{MessageReaction}
use advanced_imessage_go.Model.Location.{
  LocationType, location_legacy, location_live, location_shallow, location_unknown,
}
use advanced_imessage_go.Wire.Common.{
  Timestamp, Timestamps, PbServiceType, PbTransferState, PbCompanionKind, PbItemType,
  PbReactionKind, PbLocationType, SingleServiceAddressInfo, MultiServiceAddressInfo, PbReaction,
}

-- `if pb.HasX() { m.X = f(pb.GetX()) }`, where `m.X` starts as nil.
abbrev pub if_present {ℓ κ} : {A : Type ℓ} {B : Type κ} → (A → Option B) → Option A → Option B
if_present f none = none
if_present f (some a) = f a

module _ ⦃ts : Timestamps⦄ where
  unfoldable pub time_from_proto : Option Timestamp → Time
  time_from_proto none = zero_time
  time_from_proto (some t) = ts.as_time t

  unfoldable pub time_ptr_from_proto : Option Timestamp → Option Time
  time_ptr_from_proto none = none
  time_ptr_from_proto (some t) = some (ts.as_time t)

-- An `int32` read as an `int` keeps its value.
abbrev pub ptr_int : ℤ → Option ℤ
ptr_int v = some v

abbrev pub ptr_bool : Bool → Option Bool
ptr_bool v = some v

abbrev pub ptr_float : Float64 → Option Float64
ptr_float v = some v

abbrev pub ptr_string : GoString → Option GoString
ptr_string v = some v

abbrev pub ptr_int64 : ℤ → Option ℤ
ptr_int64 v = some v

unfoldable pub chat_service_from_proto : PbServiceType → ChatServiceType
chat_service_from_proto PbServiceType.imessage = service_imessage
chat_service_from_proto PbServiceType.sms = service_sms
chat_service_from_proto PbServiceType.rcs = service_rcs
chat_service_from_proto _ = service_unknown

abbrev pub no_handle : Handle
no_handle = record { address = []; service = []; country = [] }

unfoldable pub handle_from_proto : Option SingleServiceAddressInfo → Handle
unfolding chat_service_from_proto
handle_from_proto none = no_handle
handle_from_proto (some pb) = record {
  address = pb.address;
  service = chat_service_from_proto pb.service;
  country = pb.country;
}

unfoldable pub handle_ptr_from_proto : Option SingleServiceAddressInfo → Option Handle
unfolding handle_from_proto
handle_ptr_from_proto none = none
handle_ptr_from_proto (some pb) = some (handle_from_proto (some pb))

unfoldable pub address_info_from_proto : Option MultiServiceAddressInfo → AddressInfo
unfolding chat_service_from_proto
address_info_from_proto none = record { address = []; services = []; country = [] }
address_info_from_proto (some pb) = record {
  address = pb.address;
  services = map chat_service_from_proto pb.services;
  country = pb.country;
}

unfoldable pub transfer_state_from_proto : PbTransferState → TransferState
transfer_state_from_proto PbTransferState.pending = transfer_state_pending
transfer_state_from_proto PbTransferState.transferring = transfer_state_transferring
transfer_state_from_proto PbTransferState.failed = transfer_state_failed
transfer_state_from_proto PbTransferState.finished = transfer_state_finished
transfer_state_from_proto PbTransferState.unavailable = transfer_state_unavailable
transfer_state_from_proto _ = transfer_state_unknown

unfoldable pub companion_kind_from_proto : PbCompanionKind → CompanionKind
companion_kind_from_proto PbCompanionKind.live_photo_video = companion_live_photo_video
companion_kind_from_proto _ = companion_unknown

unfoldable pub companion_kind_to_proto : CompanionKind → PbCompanionKind
companion_kind_to_proto k =
    if str_eq k companion_live_photo_video
    then PbCompanionKind.live_photo_video
    else PbCompanionKind.unspecified

unfoldable pub message_item_type_from_proto : PbItemType → MessageItemType
message_item_type_from_proto PbItemType.normal = item_normal
message_item_type_from_proto PbItemType.participant_change = item_participant_change
message_item_type_from_proto PbItemType.group_name_change = item_group_name_change
message_item_type_from_proto PbItemType.chat_action = item_chat_action
message_item_type_from_proto _ = item_unknown

unfoldable pub reaction_kind_from_proto : PbReactionKind → MessageReactionKind
reaction_kind_from_proto PbReactionKind.love = reaction_love
reaction_kind_from_proto PbReactionKind.like = reaction_like
reaction_kind_from_proto PbReactionKind.dislike = reaction_dislike
reaction_kind_from_proto PbReactionKind.laugh = reaction_laugh
reaction_kind_from_proto PbReactionKind.emphasize = reaction_emphasize
reaction_kind_from_proto PbReactionKind.question = reaction_question
reaction_kind_from_proto PbReactionKind.emoji = reaction_emoji
reaction_kind_from_proto PbReactionKind.sticker = reaction_sticker
reaction_kind_from_proto _ = reaction_unknown

-- The kind, and whether callers may set it.
unfoldable pub reaction_kind_to_proto : MessageReactionKind → PbReactionKind × Bool
reaction_kind_to_proto k =
    if str_eq k reaction_love
    then (PbReactionKind.love, true)
    else if str_eq k reaction_like
    then (PbReactionKind.like, true)
    else if str_eq k reaction_dislike
    then (PbReactionKind.dislike, true)
    else if str_eq k reaction_laugh
    then (PbReactionKind.laugh, true)
    else if str_eq k reaction_emphasize
    then (PbReactionKind.emphasize, true)
    else if str_eq k reaction_question
    then (PbReactionKind.question, true)
    else if str_eq k reaction_emoji
    then (PbReactionKind.emoji, true)
    else (PbReactionKind.love, false)

unfoldable pub location_type_from_proto : PbLocationType → LocationType
location_type_from_proto PbLocationType.legacy = location_legacy
location_type_from_proto PbLocationType.live = location_live
location_type_from_proto PbLocationType.shallow = location_shallow
location_type_from_proto _ = location_unknown

unfoldable pub reaction_from_proto : Option PbReaction → MessageReaction
unfolding reaction_kind_from_proto
reaction_from_proto none = record { kind = []; emoji = [] }
reaction_from_proto (some pb) = record { kind = reaction_kind_from_proto pb.kind; emoji = pb.emoji }
