-- ===== src/Services/Attachments.antt =====
-- attachments.go: `AttachmentClient`.
use advanced_imessage_go.Prelude.{Option, none, some}
use advanced_imessage_go.Prelude.Text.{GoString}
use advanced_imessage_go.Errors.Chain.{ConnectText}
use advanced_imessage_go.Transport.Runtime.{Action, Outcome, Context}
use advanced_imessage_go.Model.Attachment.{
  AttachmentInfo, AttachmentInput, CompanionInput, UploadAttachmentResult, DownloadChunk,
}
use advanced_imessage_go.Wire.Common.{
  PbCompanionKind, PbAttachmentInfo, PbCompanionInfo, PbDownload,
}
use advanced_imessage_go.Convert.Common.{companion_kind_to_proto}
use advanced_imessage_go.Convert.Attachment.{
  attachment_info_from_proto, companion_info_from_proto, download_chunk_from_proto,
}
use advanced_imessage_go.Streams.{Frames, Opened, emitted}
use advanced_imessage_go.Services.{answered}

pub record PbCompanion : Type 0 where
  pub contents : GoString
  pub kind : PbCompanionKind

pub record PbUpload : Type 0 where
  pub file_name : GoString
  pub contents : GoString
  pub companion : Option PbCompanion

pub record PbUploaded : Type 0 where
  pub attachment : Option PbAttachmentInfo
  pub companion : Option PbCompanionInfo

-- The generated `AttachmentServiceClient`.
pub record AttachmentService (S : Type 0) : Type 0 where
  pub get_attachment_info : Context → GoString → Action S (Outcome (Option PbAttachmentInfo))
  pub upload_attachment : Context → PbUpload → Action S (Outcome PbUploaded)
  pub download_attachment : Context → GoString → Action S (Outcome (Frames PbDownload))

abbrev companion_to_proto : Option CompanionInput → Option PbCompanion
companion_to_proto none = none
companion_to_proto (some c) =
    some (record { contents = c.contents; kind = companion_kind_to_proto c.kind })

-- The request of `Upload`.
unfoldable pub upload_request : AttachmentInput → PbUpload
upload_request input = record {
  file_name = input.file_name;
  contents = input.contents;
  companion = companion_to_proto input.companion;
}

unfoldable pub uploaded : PbUploaded → UploadAttachmentResult
uploaded resp = record {
  attachment = attachment_info_from_proto resp.attachment;
  companion = companion_info_from_proto resp.companion;
}

module _ ⦃ct : ConnectText⦄ {S : Type 0} (svc : AttachmentService S) (ctx : Context) where
  unfoldable pub get : GoString → Action S (Outcome AttachmentInfo)
  get guid = answered attachment_info_from_proto (svc.get_attachment_info ctx guid)

  unfoldable pub upload : AttachmentInput → Action S (Outcome UploadAttachmentResult)
  unfolding upload_request
  upload input = answered uploaded (svc.upload_attachment ctx (upload_request input))

  -- `DownloadStream`, up to the call of `transport.Subscribe`.
  unfoldable pub download_stream : GoString → Opened S PbDownload DownloadChunk
  download_stream guid = record {
    open_stream = svc.download_attachment ctx guid;
    convert = λ frame. emitted (download_chunk_from_proto frame);
  }
