-- ===== src/Convert/Attachment.antt =====
-- conv_attachment.go.
use advanced_imessage_go.Prelude.{[], false, Option, none, some}
use advanced_imessage_go.Prelude.Int.{pos}
use advanced_imessage_go.Model.Attachment.{
  AttachmentInfo, CompanionKind, CompanionInfo, DownloadChunk, header_chunk, primary_chunk,
  companion_chunk,
}
use advanced_imessage_go.Wire.Common.{
  PbCompanionKind, PbAttachmentInfo, PbCompanionInfo, PbDownload,
}
use advanced_imessage_go.Convert.Common.{transfer_state_from_proto, companion_kind_from_proto}

-- Without a companion kind the field keeps its zero value.
abbrev kind_if_present : Option PbCompanionKind → CompanionKind
kind_if_present none = []
kind_if_present (some k) = companion_kind_from_proto k

unfoldable pub attachment_info_from_proto : Option PbAttachmentInfo → AttachmentInfo
attachment_info_from_proto none = record {
  guid = [];
  original_guid = [];
  file_name = [];
  mime_type = [];
  uti = [];
  total_bytes = pos 0;
  is_outgoing = false;
  transfer_state = [];
  is_hidden = false;
  is_sticker = false;
  companion_kind = [];
}
attachment_info_from_proto (some pb) = record {
  guid = pb.guid;
  original_guid = pb.original_guid;
  file_name = pb.file_name;
  mime_type = pb.mime_type;
  uti = pb.uti;
  total_bytes = pb.total_bytes;
  is_outgoing = pb.is_outgoing;
  transfer_state = transfer_state_from_proto pb.transfer_state;
  is_hidden = pb.is_hidden;
  is_sticker = pb.is_sticker;
  companion_kind = kind_if_present pb.companion_kind;
}

unfoldable pub attachment_info_ptr_from_proto : Option PbAttachmentInfo → Option AttachmentInfo
attachment_info_ptr_from_proto none = none
attachment_info_ptr_from_proto (some pb) = some (attachment_info_from_proto (some pb))

unfoldable pub companion_info_from_proto : Option PbCompanionInfo → Option CompanionInfo
companion_info_from_proto none = none
companion_info_from_proto (some pb) = some (record {
  file_name = pb.file_name;
  mime_type = pb.mime_type;
  total_bytes = pb.total_bytes;
  kind = companion_kind_from_proto pb.kind;
})

-- `none` is a frame that is dropped.
unfoldable pub download_chunk_from_proto : PbDownload → Option DownloadChunk
download_chunk_from_proto (PbDownload.header info companion) = some (
    header_chunk (record {
      info = attachment_info_from_proto info;
      companion = companion_info_from_proto companion;
    }))
download_chunk_from_proto (PbDownload.primary_chunk d) =
    some (primary_chunk (record { contents = d }))
download_chunk_from_proto (PbDownload.companion_chunk d) =
    some (companion_chunk (record { contents = d }))
download_chunk_from_proto PbDownload.unset = none
