-- ===== src/Examples/Sending.antt =====
-- Requests of the message service.
use advanced_imessage_go.Prelude.{
  List, [], ◌∷◌, ◌++◌, map, true, Option, none, some, ◌≡◌, inl, inr, refl, arith, All,
}
use advanced_imessage_go.Prelude.Text.{GoString, bytes}
use advanced_imessage_go.Prelude.Int.{pos}
use advanced_imessage_go.Errors.Codes.{code_invalid_argument}
use advanced_imessage_go.Errors.Chain.{GoError, nil, ConnectText}
use advanced_imessage_go.Errors.Convert.{is_validation, code_of}
use advanced_imessage_go.Transport.Runtime.{Context, ok, fail}
use advanced_imessage_go.Model.Effects.{format_bold}
use advanced_imessage_go.Model.Kinds.{reaction_love, reaction_emoji}
use advanced_imessage_go.Model.MessageInput.{Reaction, PartOptions, TextFormatInput}
use advanced_imessage_go.Wire.Common.{Timestamps}
use advanced_imessage_go.Wire.Requests.{PbSetReaction}
use advanced_imessage_go.Convert.Common.{reaction_from_proto}
use advanced_imessage_go.Convert.Content.{text_format_from_proto}
use advanced_imessage_go.Convert.Outgoing.{text_format_inputs_to_proto}
use advanced_imessage_go.Convert.Outgoing.Roundtrips.{described, InRange, formatting_roundtrip}
use advanced_imessage_go.Messages.{MessageService, message_result, then_result}
use advanced_imessage_go.Messages.Sending.{set_reaction}
use advanced_imessage_go.Messages.Reactions.{
  IsValid, IsIndexOf, IsKeyOf, set_reaction_refused, set_reaction_sent,
}

abbrev texts : ConnectText
texts = record { code_text = λ c. bytes "status"; error_text = λ c m. m }

abbrev clock : Timestamps
clock = record {
  as_time = λ t. t.seconds;
  new_timestamp = λ t. record { seconds = t; nanos = pos 0 };
}

-- A service that keeps the reaction requests that it gets.
abbrev service : MessageService (List PbSetReaction)
service = record {
  send_text_message = λ ctx req s. (ok none, s);
  send_attachment_message = λ ctx req s. (ok none, s);
  send_multipart_message = λ ctx req s. (ok none, s);
  send_customized_mini_app_message = λ ctx req s. (ok none, s);
  edit_message = λ ctx req s. (ok none, s);
  unsend_message = λ ctx req s. (nil, s);
  set_reaction_message = λ ctx req s. (ok none, s ++ req ∷ []);
  place_sticker_message = λ ctx req s. (ok none, s);
  notify_silenced_message = λ ctx req s. (nil, s);
  get_message = λ ctx guid s. (ok none, s);
  list_recent_messages = λ ctx filter s. (ok (record { messages = []; next_page_token = [] }), s);
  list_chat_messages =
      λ ctx chat filter s. (ok (record { messages = []; next_page_token = [] }), s);
  get_embedded_media = λ ctx chat guid s. (ok none, s);
  subscribe_message_events = λ ctx chat s. (ok ([], nil), s);
  quote = λ text. text;
}

abbrev context : Context
context = record { deadline = none; scope = 0 }

abbrev chat : GoString
chat = bytes "iMessage;-;a"

abbrev love : Reaction
love = record { kind = reaction_love; emoji = [] }

abbrev bare : Reaction
bare = record { kind = reaction_emoji; emoji = [] }

abbrev first_part : Option PartOptions
first_part = some (record { part_index = some (pos 0); client_message_id = [] })

not-IsValid : IsValid bare → ⊥
not-IsValid (inr h) = h.1 refl
not-IsValid (inl h) = absurd (ground arith)

set_reaction_refused_example :
    (err : GoError) × (set_reaction ⦃ct = texts⦄ ⦃ts = clock⦄ service context chat
        (bytes "m")
        bare
        true
        first_part
        []
      ≡ (fail err, []))
    × (is_validation err ≡ true)
    × (code_of err ≡ code_invalid_argument)
set_reaction_refused_example =
    set_reaction_refused ⦃ct = texts⦄ ⦃ts = clock⦄ service context chat (bytes "m") bare true
      first_part [] not-IsValid

set_reaction_sent_example :
    (req : PbSetReaction) × (set_reaction ⦃ct = texts⦄ ⦃ts = clock⦄ service context chat
        (bytes "m")
        love
        true
        first_part
        []
      ≡ then_result ⦃ct = texts⦄ ⦃ts = clock⦄
          (message_result ⦃ct = texts⦄ ⦃ts = clock⦄)
          (service.set_reaction_message context req)
          [])
    × (reaction_from_proto (some req.reaction) ≡ record { kind = reaction_love; emoji = [] })
    × (req.is_set ≡ true)
    × (req.target.chat_guid ≡ chat)
    × (req.target.message_guid ≡ bytes "m")
    × IsIndexOf first_part req.target.target_part_index
    × IsKeyOf first_part req.client_message_id
set_reaction_sent_example =
    set_reaction_sent ⦃ct = texts⦄ ⦃ts = clock⦄ service context chat (bytes "m") love true
      first_part [] (inl (inl refl))

abbrev bold : List TextFormatInput
bold = record { kind = format_bold; start = pos 0; length = pos 4; effect = [] } ∷ []

bold-InRange : All InRange bold
bold-InRange = (((omega arith, omega arith), (omega arith, omega arith)), tt)

formatting_roundtrip_example :
    map text_format_from_proto (text_format_inputs_to_proto bold) ≡ map described bold
formatting_roundtrip_example = formatting_roundtrip bold bold-InRange
