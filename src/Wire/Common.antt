-- ===== src/Wire/Common.antt =====
-- Timestamps, enumerations, addresses and attachments of the protocol.
use advanced_imessage_go.Prelude.{ℕ, Bool, List, Option}
use advanced_imessage_go.Prelude.Int.{ℤ}
use advanced_imessage_go.Prelude.Text.{GoString}
use advanced_imessage_go.Model.Common.{Time, Float64}

-- `timestamppb.Timestamp`
pub record Timestamp : Type 0 where
  pub seconds : ℤ
  pub nanos : ℤ

-- The conversions of package `timestamppb`: `AsTime` and `New`.
pub record Timestamps : Type 0 where
  pub as_time : Timestamp → Time
  pub new_timestamp : Time → Timestamp

-- The enumerations; `other` is a number with no name that the client knows.
pub data PbServiceType : Type 0 where
  imessage sms rcs : PbServiceType
  other : ℤ → PbServiceType

pub data PbTransferState : Type 0 where
  pending transferring failed finished unavailable : PbTransferState
  other : ℤ → PbTransferState

pub data PbCompanionKind : Type 0 where
  unspecified live_photo_video : PbCompanionKind
  other : ℤ → PbCompanionKind

pub data PbItemType : Type 0 where
  normal participant_change group_name_change chat_action : PbItemType
  other : ℤ → PbItemType

pub data PbReactionKind : Type 0 where
  love like dislike laugh emphasize question emoji sticker : PbReactionKind
  other : ℤ → PbReactionKind

pub data PbLocationType : Type 0 where
  legacy live shallow : PbLocationType
  other : ℤ → PbLocationType

pub record SingleServiceAddressInfo : Type 0 where
  pub address : GoString
  pub service : PbServiceType
  pub country : GoString

pub record MultiServiceAddressInfo : Type 0 where
  pub address : GoString
  pub services : List PbServiceType
  pub country : GoString

pub record PbAttachmentInfo : Type 0 where
  pub guid : GoString
  pub original_guid : GoString
  pub file_name : GoString
  pub mime_type : GoString
  pub uti : GoString
  pub total_bytes : ℤ
  pub is_outgoing : Bool
  pub transfer_state : PbTransferState
  pub is_hidden : Bool
  pub is_sticker : Bool
  pub companion_kind : Option PbCompanionKind

pub record PbCompanionInfo : Type 0 where
  pub file_name : GoString
  pub mime_type : GoString
  pub total_bytes : ℤ
  pub kind : PbCompanionKind

-- The payload of `DownloadAttachmentResponse`.
pub data PbDownload : Type 0 where
  header : Option PbAttachmentInfo → Option PbCompanionInfo → PbDownload
  primary_chunk : GoString → PbDownload
  companion_chunk : GoString → PbDownload
  unset : PbDownload

pub record PbReaction : Type 0 where
  pub kind : PbReactionKind
  pub emoji : GoString

pub record PbPlacement : Type 0 where
  pub x : Float64
  pub y : Float64
  pub scale : Option Float64
  pub rotation : Option Float64
  pub width : Option Float64

pub record PbLocation : Type 0 where
  pub address : GoString
  pub name : GoString
  pub long_address : GoString
  pub short_address : GoString
  pub is_locating_in_progress : Bool
  pub location_type : PbLocationType
  pub location_timestamp : Option Timestamp
  pub expires_at : Option Timestamp
  pub latitude : Option Float64
  pub longitude : Option Float64
  pub accuracy : Option Float64

-- The payload of `WatchSharedFriendLocationsResponse`.
pub data PbLocationPayload : Type 0 where
  location_updated : Option PbLocation → ℕ → PbLocationPayload
  other_payload : PbLocationPayload
