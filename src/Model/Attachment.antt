-- ===== src/Model/Attachment.antt =====
-- types_attachment.go.
use advanced_imessage_go.Prelude.{Bool, Option}
use advanced_imessage_go.Prelude.Int.{ℤ}
use advanced_imessage_go.Prelude.Text.{GoString, bytes}

abbrev pub TransferState : Type 0
TransferState = GoString

abbrev pub transfer_state_pending : TransferState
transfer_state_pending = bytes "pending"

abbrev pub transfer_state_transferring : TransferState
transfer_state_transferring = bytes "transferring"

abbrev pub transfer_state_failed : TransferState
transfer_state_failed = bytes "failed"

abbrev pub transfer_state_finished : TransferState
transfer_state_finished = bytes "finished"

abbrev pub transfer_state_unavailable : TransferState
transfer_state_unavailable = bytes "unavailable"

abbrev pub transfer_state_unknown : TransferState
transfer_state_unknown = bytes "unknown"

abbrev pub CompanionKind : Type 0
CompanionKind = GoString

abbrev pub companion_live_photo_video : CompanionKind
companion_live_photo_video = bytes "live-photo-video"

abbrev pub companion_unknown : CompanionKind
companion_unknown = bytes "unknown"

pub record AttachmentInfo : Type 0 where
  pub guid : GoString
  pub original_guid : GoString
  pub file_name : GoString
  pub mime_type : GoString
  pub uti : GoString
  pub total_bytes : ℤ
  pub is_outgoing : Bool
  pub transfer_state : TransferState
  pub is_hidden : Bool
  pub is_sticker : Bool
  pub companion_kind : CompanionKind

pub record CompanionInfo : Type 0 where
  pub file_name : GoString
  pub mime_type : GoString
  pub total_bytes : ℤ
  pub kind : CompanionKind

pub record CompanionInput : Type 0 where
  pub contents : GoString
  pub kind : CompanionKind

pub record AttachmentInput : Type 0 where
  pub file_name : GoString
  pub contents : GoString
  pub companion : Option CompanionInput

pub record UploadAttachmentResult : Type 0 where
  pub attachment : AttachmentInfo
  pub companion : Option CompanionInfo

pub record DownloadHeader : Type 0 where
  pub info : AttachmentInfo
  pub companion : Option CompanionInfo

pub record DownloadPrimaryChunk : Type 0 where
  pub contents : GoString

pub record DownloadCompanionChunk : Type 0 where
  pub contents : GoString

-- The sealed interface `DownloadChunk`.
pub data DownloadChunk : Type 0 where
  header_chunk : DownloadHeader → DownloadChunk
  primary_chunk : DownloadPrimaryChunk → DownloadChunk
  companion_chunk : DownloadCompanionChunk → DownloadChunk
