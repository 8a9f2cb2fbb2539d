-- ===== src/Convert/Outgoing.antt =====
-- conv_message.go, from the domain to the protocol.
pub mod Roundtrips
use advanced_imessage_go.Prelude.{
  List, [], Bool, true, Option, none, some, map, ◌&&◌, not, if◌then◌else◌,
}
use advanced_imessage_go.Prelude.Text.{GoString, str_eq, is_empty}
use advanced_imessage_go.Prelude.Int.{ℤ, int32}
use advanced_imessage_go.ChatGuid.{ChatGuid}
use advanced_imessage_go.Model.Effects.{format_effect}
use advanced_imessage_go.Model.Message.{StickerPlacement}
use advanced_imessage_go.Model.MessageInput.{ReplyTarget, TextFormatInput, MessagePart}
use advanced_imessage_go.Wire.Common.{PbPlacement}
use advanced_imessage_go.Wire.Message.{PbTextFormat}
use advanced_imessage_go.Wire.Requests.{
  PbReplyTarget, PbMessageTarget, PbAttachmentRef, PbMessagePart,
}

-- `if s != "" { pb.SetX(s) }`
abbrev pub given : GoString → Option GoString
given s = if is_empty s then none else some s

-- `if b { pb.SetX(true) }`
abbrev pub set_if : Bool → Option Bool
set_if b = if b then some true else none

-- `if i != nil { pb.SetX(int32(*i)) }`
abbrev pub index_to_proto : Option ℤ → Option ℤ
index_to_proto none = none
index_to_proto (some i) = some (int32 i)

unfoldable pub reply_target_to_proto : Option ReplyTarget → Option PbReplyTarget
reply_target_to_proto none = none
reply_target_to_proto (some rt) =
    some (record { message_guid = rt.guid; target_part_index = index_to_proto rt.part_index })

-- An effect name that is not set reads as the empty string.
unfoldable pub text_format_input_to_proto : TextFormatInput → PbTextFormat
text_format_input_to_proto f = record {
  format_type = f.kind;
  start = int32 f.start;
  length = int32 f.length;
  effect_name = if str_eq f.kind format_effect && not (is_empty f.effect) then f.effect else [];
}

unfoldable pub text_format_inputs_to_proto : List TextFormatInput → List PbTextFormat
text_format_inputs_to_proto fs = map text_format_input_to_proto fs

unfoldable pub message_part_to_proto : MessagePart → PbMessagePart
message_part_to_proto p = record {
  text = given p.text;
  attachment =
      if is_empty p.attachment_guid
      then none
      else some (record {
        attachment_guid = p.attachment_guid;
        attachment_name = given p.attachment_name;
      });
  mentioned_address = given p.mentioned_address;
  bubble_index = index_to_proto p.bubble_index;
  formatting = text_format_inputs_to_proto p.formatting;
}

unfoldable pub sticker_placement_to_proto : StickerPlacement → PbPlacement
sticker_placement_to_proto p = record {
  x = p.x;
  y = p.y;
  scale = p.scale;
  rotation = p.rotation;
  width = p.width;
}

unfoldable pub message_target : ChatGuid → GoString → Option ℤ → PbMessageTarget
message_target chat guid index = record {
  chat_guid = chat;
  message_guid = guid;
  target_part_index = index_to_proto index;
}
