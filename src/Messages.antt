-- ===== src/Messages.antt =====
-- messages.go: the generated client behind `MessageClient`, the requests that it is sent and the
-- results that are made of its responses; the operations are in Sending and Reading.
pub mod Sending
pub mod Reading
pub mod Reactions
use advanced_imessage_go.Prelude.{
  List, [], ◌∷◌, ◌++◌, Bool, true, false, not, ◌&&◌, Option, none, some, map, if◌then◌else◌,
}
use advanced_imessage_go.Prelude.Text.{GoString, bytes, str_eq, is_empty}
use advanced_imessage_go.Prelude.Int.{ℤ, pos, ltb_ℤ, int32}
use advanced_imessage_go.ChatGuid.{ChatGuid}
use advanced_imessage_go.Errors.Chain.{GoError, nil, ConnectText}
use advanced_imessage_go.Errors.Convert.{as_error}
use advanced_imessage_go.Client.{invalid_argument}
use advanced_imessage_go.Transport.Runtime.{Action, Outcome, ok, fail, Context}
use advanced_imessage_go.Model.Kinds.{reaction_emoji}
use advanced_imessage_go.Model.Message.{Message}
use advanced_imessage_go.Model.MessageInput.{
  StickerInput, MessagePart, Reaction, EmbeddedMedia, IdempotencyOptions, SendTextOptions,
  SendAttachmentOptions, SendMultipartOptions, EditOptions, PartOptions, MiniAppLayout,
  CustomizedMiniAppMessage, MessageListFilter, MessageListPage,
}
use advanced_imessage_go.Wire.Common.{Timestamp, Timestamps, PbReactionKind}
use advanced_imessage_go.Wire.Message.{PbMessage}
use advanced_imessage_go.Wire.Changes.{PbFrame, PbMessageChangeEvent}
use advanced_imessage_go.Streams.{Frames}
use advanced_imessage_go.Wire.Requests.{
  PbSendText, PbSendAttachment, PbSendMultipart, PbEdit, PbUnsend, PbSetReaction, PbPlaceSticker,
  PbNotifySilenced, PbMiniAppLayout, PbSendMiniApp, PbListFilter, PbListMessages, PbAttachmentRef,
  PbEmbeddedMedia,
}
use advanced_imessage_go.Convert.Common.{reaction_kind_to_proto}
use advanced_imessage_go.Convert.Message.{message_from_proto}
use advanced_imessage_go.Convert.Outgoing.{
  given, set_if, reply_target_to_proto, text_format_inputs_to_proto, message_part_to_proto,
  sticker_placement_to_proto, message_target,
}

-- The generated `MessageServiceClient`, behind the transport, on the state `S` of the server and
-- the surroundings. A response is the message in it; `quote` is the verb %q of package fmt.
pub record MessageService (S : Type 0) : Type 0 where
  pub send_text_message : Context → PbSendText → Action S (Outcome (Option PbMessage))
  pub send_attachment_message : Context → PbSendAttachment → Action S (Outcome (Option PbMessage))
  pub send_multipart_message : Context → PbSendMultipart → Action S (Outcome (Option PbMessage))
  pub send_customized_mini_app_message :
      Context → PbSendMiniApp → Action S (Outcome (Option PbMessage))
  pub edit_message : Context → PbEdit → Action S (Outcome (Option PbMessage))
  pub unsend_message : Context → PbUnsend → Action S GoError
  pub set_reaction_message : Context → PbSetReaction → Action S (Outcome (Option PbMessage))
  pub place_sticker_message : Context → PbPlaceSticker → Action S (Outcome (Option PbMessage))
  pub notify_silenced_message : Context → PbNotifySilenced → Action S GoError
  pub get_message : Context → GoString → Action S (Outcome (Option PbMessage))
  pub list_recent_messages : Context → PbListFilter → Action S (Outcome PbListMessages)
  pub list_chat_messages : Context → ChatGuid → PbListFilter → Action S (Outcome PbListMessages)
  pub get_embedded_media :
      Context → ChatGuid → GoString → Action S (Outcome (Option PbEmbeddedMedia))
  pub subscribe_message_events :
      Context → Option GoString → Action S (Outcome (Frames (PbFrame PbMessageChangeEvent)))
  pub quote : GoString → GoString

-- `if opts != nil { … }` around the setters of a field.
abbrev pub from_options : {O A : Type 0} → (O → Option A) → Option O → Option A
from_options f none = none
from_options f (some opts) = f opts

abbrev pub key_of : Option IdempotencyOptions → Option GoString
key_of opts = from_options (λ o. given o.client_message_id) opts

abbrev no_filter : PbListFilter
no_filter = record {
  page_size = none;
  page_token = none;
  is_from_me = none;
  is_read = none;
  before = none;
  after = none;
}

abbrev timestamp_of : ⦃ts : Timestamps⦄ → Option ℤ → Option Timestamp
timestamp_of ⦃ts⦄ none = none
timestamp_of ⦃ts⦄ (some t) = some (ts.new_timestamp t)

unfoldable pub apply_list_filter : ⦃ts : Timestamps⦄ → Option MessageListFilter → PbListFilter
apply_list_filter none = no_filter
apply_list_filter (some f) = record {
  page_size = if ltb_ℤ (pos 0) f.page_size then some (int32 f.page_size) else none;
  page_token = given f.page_token;
  is_from_me = f.is_from_me;
  is_read = f.is_read;
  before = timestamp_of f.before;
  after = timestamp_of f.after;
}

unfoldable pub mini_app_layout_to_proto : MiniAppLayout → PbMiniAppLayout
mini_app_layout_to_proto l = record {
  caption = given l.caption;
  subcaption = given l.subcaption;
  trailing_caption = given l.trailing_caption;
  trailing_subcaption = given l.trailing_subcaption;
  image_title = given l.image_title;
  image_subtitle = given l.image_subtitle;
  summary = given l.summary;
  image = given l.image;
}

abbrev pub attachment_ref : GoString → PbAttachmentRef
attachment_ref guid = record { attachment_guid = guid; attachment_name = none }

-- The request of `SendText`.
unfoldable pub send_text_request : ChatGuid → GoString → Option SendTextOptions → PbSendText
send_text_request chat text opts = record {
  chat_guid = chat;
  text = text;
  reply_to = from_options (λ o. reply_target_to_proto o.reply_to) opts;
  subject = from_options (λ o. given o.subject) opts;
  effect_id = from_options (λ o. given o.effect) opts;
  enable_data_detection = from_options (λ o. set_if o.enable_data_detection) opts;
  enable_link_preview = from_options (λ o. set_if o.enable_link_preview) opts;
  formatting = elim opts [ none ↦ [] | some o ↦ text_format_inputs_to_proto o.formatting ];
  client_message_id = from_options (λ o. given o.client_message_id) opts;
}

abbrev pub not_settable : GoString → GoString
not_settable quoted = bytes "reaction kind " ++ (quoted ++ bytes " is not settable")

abbrev pub emoji_required : GoString
emoji_required = bytes "emoji reaction requires a non-empty Emoji"

-- The request of `setReaction` for a kind of the protocol.
unfoldable pub set_reaction_request :
    ChatGuid → GoString → PbReactionKind → Reaction → Bool → Option PartOptions → PbSetReaction
set_reaction_request chat guid kind reaction is_set opts = record {
  target = message_target chat guid (from_options (λ o. o.part_index) opts);
  reaction = record { kind = kind; emoji = reaction.emoji };
  is_set = is_set;
  client_message_id = from_options (λ o. given o.client_message_id) opts;
}

module _ ⦃ct : ConnectText⦄ ⦃ts : Timestamps⦄ where
  -- `if err != nil { return Message{}, asError(err) }; return messageFromProto(…), nil`
  abbrev pub message_result : Outcome (Option PbMessage) → Outcome Message
  message_result (ok m) = ok (message_from_proto m)
  message_result (fail err) = fail (as_error err)

  abbrev pub page_result : Outcome PbListMessages → Outcome MessageListPage
  page_result (ok resp) = ok (record {
    messages = map message_from_proto resp.messages;
    next_page_token = resp.next_page_token;
  })
  page_result (fail err) = fail (as_error err)

  abbrev pub then_result : {S A B : Type 0} → (A → B) → Action S A → Action S B
  then_result f m s = let (a, s') = m s in (f a, s')
