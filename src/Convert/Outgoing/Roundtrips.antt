-- ===== src/Convert/Outgoing/Roundtrips.antt =====
-- What survives the way of conv_message.go to the protocol and back.
use advanced_imessage_go.Prelude.{
  List, [], ◌∷◌, Option, none, some, map, ◌≡◌, refl, arith, if◌then◌else◌, All,
}
use mathlib.Core.Path.{ap₂}
use advanced_imessage_go.Prelude.Text.{str_eq}
use advanced_imessage_go.Prelude.Int.{int32_id, InInt32}
use advanced_imessage_go.Model.Effects.{format_effect}
use advanced_imessage_go.Model.Message.{StickerPlacement, TextFormat}
use advanced_imessage_go.Model.MessageInput.{TextFormatInput}
use advanced_imessage_go.Convert.Common.{if_present}
use advanced_imessage_go.Convert.Content.{sticker_placement_from_proto, text_format_from_proto}
use advanced_imessage_go.Convert.Outgoing.{
  sticker_placement_to_proto, text_format_input_to_proto, text_format_inputs_to_proto,
}

present : {A : Type 0} (o : Option A) → if_present (λ a. some a) o ≡ o
present none = refl
present (some a) = refl

-- A sticker placement survives the way to the protocol and back, with each optional part set or
-- not as it was.
pub sticker_placement_roundtrip :
    (p : StickerPlacement)
    → sticker_placement_from_proto (some (sticker_placement_to_proto p)) ≡ some p
unfolding sticker_placement_from_proto sticker_placement_to_proto
sticker_placement_roundtrip p = rw (present p.scale, present p.rotation, present p.width) refl

-- What a format input describes, as the format of a received message.
abbrev pub described : TextFormatInput → TextFormat
described f = record {
  type = f.kind;
  start = f.start;
  length = f.length;
  effect_name = if str_eq f.kind format_effect then f.effect else [];
}

-- Start and length are numbers of 32 bits.
abbrev pub InRange : TextFormatInput → Type 0
InRange f = InInt32 f.start × InInt32 f.length

format_roundtrip :
    (f : TextFormatInput)
    → InRange f
    → text_format_from_proto (text_format_input_to_proto f) ≡ described f
unfolding text_format_from_proto text_format_input_to_proto
format_roundtrip f h = rw (int32_id f.start h.0, int32_id f.length h.1) (ground arith)

-- Formatting whose starts and lengths fit into 32 bits comes back as it was, in order, with the
-- effect name for effects only.
pub formatting_roundtrip :
    (fs : List TextFormatInput)
    → All InRange fs
    → map text_format_from_proto (text_format_inputs_to_proto fs) ≡ map described fs
unfolding text_format_inputs_to_proto
formatting_roundtrip [] h = refl
formatting_roundtrip (f ∷ fs) h =
    ap₂ (λ x l. x ∷ l) (format_roundtrip f h.0) (formatting_roundtrip fs h.1)
