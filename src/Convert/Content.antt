-- ===== src/Convert/Content.antt =====
-- conv_message.go: the content of messages, their reactions and stickers.
pub mod Sorted
use advanced_imessage_go.Prelude.{
  ℕ, Ordering, List, [], ◌∷◌, Bool, true, false, Option, none, some, map,
}
use advanced_imessage_go.Prelude.Text.{GoString, compare_str}
use advanced_imessage_go.Prelude.Sort.{and_then, sort_func}
use advanced_imessage_go.Prelude.Order.{compare_ℤ}
use advanced_imessage_go.Model.Message.{
  MiniAppLayoutInfo, MiniAppContent, TextFormat, MessageMention, MessageContent,
  MessageAppliedReaction, MessagePlacedSticker, StickerPlacement,
}
use advanced_imessage_go.Wire.Common.{Timestamps, PbPlacement}
use advanced_imessage_go.Wire.Message.{
  PbTextFormat, PbMention, PbLayoutInfo, PbMiniApp, PbContent, PbAppliedReaction, PbPlacedSticker,
}
use advanced_imessage_go.Convert.Common.{
  if_present, time_from_proto, ptr_int, ptr_float, ptr_string, ptr_int64, handle_ptr_from_proto,
  reaction_from_proto,
}
use advanced_imessage_go.Convert.Attachment.{
  attachment_info_from_proto, attachment_info_ptr_from_proto,
}

unfoldable pub text_format_from_proto : PbTextFormat → TextFormat
text_format_from_proto pb = record {
  type = pb.format_type;
  start = pb.start;
  length = pb.length;
  effect_name = pb.effect_name;
}

unfoldable pub mention_from_proto : PbMention → MessageMention
mention_from_proto pb = record { address = pb.address; start = pb.start; length = pb.length }

unfoldable pub mini_app_layout_info_from_proto : Option PbLayoutInfo → Option MiniAppLayoutInfo
mini_app_layout_info_from_proto none = none
mini_app_layout_info_from_proto (some pb) = some (record {
  caption = if_present ptr_string pb.caption;
  subcaption = if_present ptr_string pb.subcaption;
  trailing_caption = if_present ptr_string pb.trailing_caption;
  trailing_subcaption = if_present ptr_string pb.trailing_subcaption;
  image_title = if_present ptr_string pb.image_title;
  image_subtitle = if_present ptr_string pb.image_subtitle;
  summary = if_present ptr_string pb.summary;
})

unfoldable pub mini_app_content_from_proto : Option PbMiniApp → Option MiniAppContent
mini_app_content_from_proto none = none
mini_app_content_from_proto (some pb) = some (record {
  team_id = pb.team_id;
  extension_bundle_id = pb.extension_bundle_id;
  live = pb.live;
  app_name = if_present ptr_string pb.app_name;
  url = if_present ptr_string pb.url;
  session_id = if_present ptr_string pb.session_id;
  app_store_id = if_present ptr_int64 pb.app_store_id;
  layout = if_present (λ l. mini_app_layout_info_from_proto (some l)) pb.layout;
})

abbrev pub no_content : MessageContent
no_content = record {
  text = [];
  attachments = [];
  formatting = [];
  mentions = [];
  balloon_bundle_id = [];
  expressive_send_style_id = [];
  mini_app = none;
}

unfoldable pub message_content_from_proto : Option PbContent → MessageContent
message_content_from_proto none = no_content
message_content_from_proto (some pb) = record {
  text = pb.text;
  attachments = map attachment_info_from_proto pb.attachments;
  formatting = map text_format_from_proto pb.formatting;
  mentions = map mention_from_proto pb.mentions;
  balloon_bundle_id = pb.balloon_bundle_id;
  expressive_send_style_id = pb.expressive_send_style_id;
  mini_app = if_present (λ m. mini_app_content_from_proto (some m)) pb.mini_app;
}

unfoldable pub sticker_placement_from_proto : Option PbPlacement → Option StickerPlacement
sticker_placement_from_proto none = none
sticker_placement_from_proto (some pb) = some (record {
  x = pb.x;
  y = pb.y;
  scale = if_present ptr_float pb.scale;
  rotation = if_present ptr_float pb.rotation;
  width = if_present ptr_float pb.width;
})

-- Oldest first, then by the message: the comparison functions of the two sorts.
abbrev pub compare_reactions : MessageAppliedReaction → MessageAppliedReaction → Ordering
compare_reactions a b =
    and_then (compare_ℤ a.date_created b.date_created) (compare_str a.message_guid b.message_guid)

abbrev pub compare_stickers : MessagePlacedSticker → MessagePlacedSticker → Ordering
compare_stickers a b =
    and_then (compare_ℤ a.date_created b.date_created) (compare_str a.message_guid b.message_guid)

module _ ⦃ts : Timestamps⦄ where
  unfoldable pub applied_reaction_from_proto : PbAppliedReaction → MessageAppliedReaction
  applied_reaction_from_proto pb = record {
    message_guid = pb.message_guid;
    target_part_index = if_present ptr_int pb.target_part_index;
    reaction = reaction_from_proto pb.reaction;
    sender = handle_ptr_from_proto pb.sender;
    is_from_me = pb.is_from_me;
    date_created = time_from_proto pb.date_created;
  }

  -- An empty list stays empty, as the early return says.
  unfoldable pub applied_reactions_from_proto : List PbAppliedReaction → List MessageAppliedReaction
  applied_reactions_from_proto pbs =
      sort_func compare_reactions (map applied_reaction_from_proto pbs)

  unfoldable pub placed_sticker_from_proto : PbPlacedSticker → MessagePlacedSticker
  placed_sticker_from_proto pb = record {
    message_guid = pb.message_guid;
    target_part_index = if_present ptr_int pb.target_part_index;
    sender = handle_ptr_from_proto pb.sender;
    is_from_me = pb.is_from_me;
    date_created = time_from_proto pb.date_created;
    sticker = attachment_info_ptr_from_proto pb.sticker;
    placement = sticker_placement_from_proto pb.placement;
  }

  unfoldable pub placed_stickers_from_proto : List PbPlacedSticker → List MessagePlacedSticker
  placed_stickers_from_proto pbs = sort_func compare_stickers (map placed_sticker_from_proto pbs)
