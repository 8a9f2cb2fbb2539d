-- ===== src/SendAll/Contents.antt =====
-- examples/send-all/main.go: what the steps of `run` send.
use advanced_imessage_go.Prelude.{ℕ, List, [], ◌∷◌, true, none, some, if◌then◌else◌}
use advanced_imessage_go.Prelude.Text.{GoString, bytes, is_empty}
use advanced_imessage_go.Prelude.Int.{pos}
use advanced_imessage_go.Model.Effects.{
  effect_confetti, text_effect_big, format_bold, format_effect,
}
use advanced_imessage_go.Model.Common.{Float64}
use advanced_imessage_go.Model.Kinds.{reaction_love, reaction_like, reaction_emoji}
use advanced_imessage_go.Model.MessageInput.{
  SendTextOptions, MessagePart, EditOptions, Reaction, StickerInput, CustomizedMiniAppMessage,
}

-- The options of the rich text message.
abbrev pub rich_options : GoString → SendTextOptions
rich_options anchor = record {
  reply_to = if is_empty anchor then none else some (record { guid = anchor; part_index = none });
  subject = bytes "send-all subject";
  effect = effect_confetti;
  enable_data_detection = true;
  enable_link_preview = true;
  formatting =
      record { kind = format_bold; start = pos 0; length = pos 2; effect = [] }
      ∷ record { kind = format_effect; start = pos 3; length = pos 4; effect = text_effect_big }
      ∷ [];
  client_message_id = [];
}

abbrev text_part : GoString → ℕ → MessagePart
text_part text n = record {
  text = text;
  attachment_guid = [];
  attachment_name = [];
  mentioned_address = [];
  bubble_index = some (pos n);
  formatting = [];
}

abbrev attachment_part : GoString → MessagePart
attachment_part guid = record {
  text = [];
  attachment_guid = guid;
  attachment_name = bytes "pixel.png";
  mentioned_address = [];
  bubble_index = some (pos 2);
  formatting = [];
}

abbrev pub parts_of : GoString → List MessagePart
parts_of attachment =
    text_part (bytes "5/ multipart bubble one") 0
    ∷ text_part (bytes "multipart bubble two") 1
    ∷ (if is_empty attachment then [] else attachment_part attachment ∷ [])

abbrev pub edited : EditOptions
edited = record { backward_compat_text = bytes "edited"; part_index = none; client_message_id = [] }

-- Love, like, and U+1F389 in UTF-8.
abbrev pub reactions : List Reaction
reactions =
    record { kind = reaction_love; emoji = [] }
    ∷ record { kind = reaction_like; emoji = [] }
    ∷ record { kind = reaction_emoji; emoji = 240 ∷ 159 ∷ 142 ∷ 137 ∷ [] }
    ∷ []

-- 0.5 as the bits of a float64.
abbrev half : Float64
half = 4602678819172646912

abbrev pub sticker_of : GoString → StickerInput
sticker_of guid = record {
  guid = guid;
  placement = record { x = half; y = half; scale = none; rotation = none; width = none };
}

-- The settings of the mini-app step.
pub record MiniApp : Type 0 where
  pub team : GoString
  pub bundle : GoString
  pub url : GoString

abbrev pub mini_app_message : MiniApp → CustomizedMiniAppMessage
mini_app_message m = record {
  app_name = bytes "send-all";
  extension_bundle_id = m.bundle;
  team_id = m.team;
  url = m.url;
  app_store_id = none;
  layout = record {
    caption = bytes "send-all";
    subcaption = bytes "mini app";
    trailing_caption = [];
    trailing_subcaption = [];
    image_title = [];
    image_subtitle = [];
    summary = [];
    image = [];
  };
}
