-- ===== src/Examples/Echoes.antt =====
-- The echo bot with one message.
use advanced_imessage_go.Prelude.{List, [], ◌∷◌, ◌++◌, false, none, some, ◌≡◌, refl}
use advanced_imessage_go.Prelude.Text.{GoString, bytes}
use advanced_imessage_go.Prelude.Int.{ℤ, pos}
use advanced_imessage_go.Errors.Chain.{nil, ConnectText}
use advanced_imessage_go.Transport.Runtime.{Context, ok}
use advanced_imessage_go.Wire.Common.{Timestamps, PbItemType}
use advanced_imessage_go.Wire.Message.{PbContent, PbMessage}
use advanced_imessage_go.Wire.Requests.{PbSendText}
use advanced_imessage_go.Wire.Changes.{PbFrame, PbPayload, PbMessageChange, PbMessageChangeEvent}
use advanced_imessage_go.Convert.Events.{message_event_from_proto}
use advanced_imessage_go.Messages.{MessageService}
use advanced_imessage_go.Streams.Drained.{kept}
use advanced_imessage_go.Echo.{serve}
use advanced_imessage_go.Echo.Answered.{Answers}
use advanced_imessage_go.Echo.Replies.{LogsRequests, serve-Answers}

abbrev texts : ConnectText
texts = record { code_text = λ c. bytes "status"; error_text = λ c m. m }

abbrev clock : Timestamps
clock = record {
  as_time = λ t. t.seconds;
  new_timestamp = λ t. record { seconds = t; nanos = pos 0 };
}

abbrev hello : PbContent
hello = record {
  text = bytes "hi";
  balloon_bundle_id = [];
  expressive_send_style_id = [];
  attachments = [];
  formatting = [];
  mentions = [];
  mini_app = none;
}

abbrev message : PbMessage
message = record {
  guid = bytes "m1";
  content = some hello;
  subject = [];
  date_created = none;
  date_read = none;
  date_delivered = none;
  date_edited = none;
  date_retracted = none;
  date_played = none;
  date_expressive_send_played = none;
  sender = none;
  is_from_me = false;
  is_sent = false;
  is_delivered = false;
  is_delivered_quietly = false;
  did_notify_recipient = false;
  send_error_code = pos 0;
  is_audio_message = false;
  is_auto_reply = false;
  is_system_message = false;
  is_forward = false;
  is_delayed = false;
  is_spam = false;
  data_detector_results_present = false;
  is_archived = false;
  is_service_message = false;
  is_corrupt = false;
  is_expirable = false;
  share_status = none;
  share_direction = none;
  item_type = PbItemType.normal;
  group_title = [];
  chat_action_type = none;
  thread_originator_guid = [];
  thread_originator_part = [];
  reply_to_guid = [];
  reply_target_guid = [];
  destination_caller_id = [];
  part_count = none;
  cached_room_names = [];
  reaction_target_guid = [];
  reaction_target_part_index = none;
  reaction = none;
  reaction_selected = none;
  applied_reactions = [];
  placed_stickers = [];
  chat_guids = [];
}

abbrev frame : PbFrame PbMessageChangeEvent
frame = record {
  sequence = 4;
  payload = PbPayload.changed (
      some (record {
        envelope = record {
          actor = none;
          chat_guid = bytes "iMessage;-;a";
          is_from_me = false;
          occurred_at = none;
        };
        change = PbMessageChange.received (some message);
      }));
}

abbrev messages : MessageService (List PbSendText)
messages = record {
  send_text_message = λ ctx req s. (ok none, s ++ req ∷ []);
  send_attachment_message = λ ctx req s. (ok none, s);
  send_multipart_message = λ ctx req s. (ok none, s);
  send_customized_mini_app_message = λ ctx req s. (ok none, s);
  edit_message = λ ctx req s. (ok none, s);
  unsend_message = λ ctx req s. (nil, s);
  set_reaction_message = λ ctx req s. (ok none, s);
  place_sticker_message = λ ctx req s. (ok none, s);
  notify_silenced_message = λ ctx req s. (nil, s);
  get_message = λ ctx guid s. (ok none, s);
  list_recent_messages = λ ctx filter s. (ok (record { messages = []; next_page_token = [] }), s);
  list_chat_messages =
      λ ctx chat filter s. (ok (record { messages = []; next_page_token = [] }), s);
  get_embedded_media = λ ctx chat guid s. (ok none, s);
  subscribe_message_events = λ ctx chat s. (ok (frame ∷ [], nil), s);
  quote = λ text. text;
}

abbrev context : Context
context = record { deadline = none; scope = 0 }

-- Blanks stay, and a pause does nothing.
abbrev trim : GoString → GoString
trim s = s

abbrev rest : ℤ → List PbSendText → List PbSendText
rest d s = s

abbrev sent_so_far : List PbSendText → List PbSendText
sent_so_far s = s

logs : LogsRequests ⦃ct = texts⦄ ⦃ts = clock⦄ trim rest messages context (bytes "> ") sent_so_far
logs = ((λ req s. refl), (λ d s. refl), (λ s. refl))

serve-Answers_example :
    (reqs : List PbSendText) × ((serve ⦃ct = texts⦄ ⦃ts = clock⦄ trim rest messages context
        (bytes "> ")
        []).1
      ≡ [] ++ reqs)
    × Answers trim (bytes "> ") (kept (message_event_from_proto ⦃ts = clock⦄) (frame ∷ [])) reqs
serve-Answers_example =
    serve-Answers ⦃ct = texts⦄ ⦃ts = clock⦄ trim rest messages context (bytes "> ") sent_so_far logs
      (frame ∷ []) nil [] refl
