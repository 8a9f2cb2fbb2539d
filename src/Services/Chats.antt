-- ===== src/Services/Chats.antt =====
-- chats.go: `ChatClient`.
pub mod Creating
use advanced_imessage_go.Prelude.{List, Bool, not, ◌||◌, Option, none, some, if◌then◌else◌}
use advanced_imessage_go.Prelude.Int.{ℤ}
use advanced_imessage_go.Prelude.Text.{GoString, is_empty}
use advanced_imessage_go.ChatGuid.{ChatGuid}
use advanced_imessage_go.Errors.Chain.{GoError, ConnectText}
use advanced_imessage_go.Transport.Runtime.{Action, Outcome, Context}
use advanced_imessage_go.Model.Chat.{Chat, CreateChatOptions, CreateChatResult}
use advanced_imessage_go.Wire.Common.{Timestamps, PbServiceType}
use advanced_imessage_go.Wire.Message.{PbMessage, PbChat}
use advanced_imessage_go.Convert.Message.{chat_from_proto, message_ptr_from_proto}
use advanced_imessage_go.Convert.Outgoing.{given, set_if}
use advanced_imessage_go.Model.Events.{ChatEvent}
use advanced_imessage_go.Wire.Changes.{PbFrame, PbChatChangeEvent}
use advanced_imessage_go.Convert.Events.{chat_event_from_proto}
use advanced_imessage_go.Streams.{Frames, Opened, emitted, SubscribeOptions, chat_filter}
use advanced_imessage_go.Services.{answered, acknowledged}

pub record PbInitialMessage : Type 0 where
  pub text : GoString
  pub attributed_body : Option GoString
  pub effect_id : Option GoString
  pub subject : Option GoString

pub record PbCreateChat : Type 0 where
  pub addresses : List GoString
  pub service : PbServiceType
  pub initial_message : Option PbInitialMessage
  pub client_message_id : Option GoString

pub record PbCreatedChat : Type 0 where
  pub chat : Option PbChat
  pub initial_message : Option PbMessage

-- The generated `ChatServiceClient`, with its responses as what is read of them.
pub record ChatService (S : Type 0) : Type 0 where
  pub get_chat_count : Context → (include_archived : Option Bool) → Action S (Outcome ℤ)
  pub create_chat : Context → PbCreateChat → Action S (Outcome PbCreatedChat)
  pub get_chat : Context → ChatGuid → Action S (Outcome (Option PbChat))
  pub has_chat_background : Context → ChatGuid → Action S (Outcome Bool)
  pub set_chat_background : Context → ChatGuid → (contents : GoString) → Action S GoError
  pub remove_chat_background : Context → ChatGuid → Action S GoError
  pub mark_chat_read : Context → ChatGuid → Action S GoError
  pub share_chat_contact_info : Context → ChatGuid → Action S GoError
  pub set_chat_typing : Context → ChatGuid → Bool → Action S GoError
  pub subscribe_chat_events :
      Context → Option GoString → Action S (Outcome (Frames (PbFrame PbChatChangeEvent)))

pub record ChatCountOptions : Type 0 where
  pub include_archived : Bool

abbrev include_archived_of : Option ChatCountOptions → Option Bool
include_archived_of none = none
include_archived_of (some opts) = set_if opts.include_archived

-- The initial message of `Create`: none where no option asks for one.
unfoldable pub initial_message_of : CreateChatOptions → Option PbInitialMessage
initial_message_of opts =
    if not (is_empty opts.message)
      || (not (is_empty opts.attributed_body)
          || (not (is_empty opts.subject) || not (is_empty opts.effect)))
    then some (record {
      text = opts.message;
      attributed_body = given opts.attributed_body;
      effect_id = given opts.effect;
      subject = given opts.subject;
    })
    else none

-- The request of `Create`.
unfoldable pub create_chat_request : List GoString → Option CreateChatOptions → PbCreateChat
unfolding initial_message_of
create_chat_request addresses none = record {
  addresses = addresses;
  service = PbServiceType.imessage;
  initial_message = none;
  client_message_id = none;
}
create_chat_request addresses (some opts) = record {
  addresses = addresses;
  service = PbServiceType.imessage;
  initial_message = initial_message_of opts;
  client_message_id = given opts.client_message_id;
}

unfoldable pub created_chat : ⦃ts : Timestamps⦄ → PbCreatedChat → CreateChatResult
created_chat resp = record {
  chat = chat_from_proto resp.chat;
  initial_message = message_ptr_from_proto resp.initial_message;
}

module _ ⦃ct : ConnectText⦄ ⦃ts : Timestamps⦄ {S : Type 0} (svc : ChatService S)
    (ctx : Context) where
  unfoldable pub count : Option ChatCountOptions → Action S (Outcome ℤ)
  count opts = answered (λ n. n) (svc.get_chat_count ctx (include_archived_of opts))

  unfoldable pub create :
      List GoString → Option CreateChatOptions → Action S (Outcome CreateChatResult)
  unfolding create_chat_request
  create addresses opts =
      answered created_chat (svc.create_chat ctx (create_chat_request addresses opts))

  unfoldable pub get : ChatGuid → Action S (Outcome Chat)
  get chat = answered chat_from_proto (svc.get_chat ctx chat)

  unfoldable pub has_background : ChatGuid → Action S (Outcome Bool)
  has_background chat = answered (λ present. present) (svc.has_chat_background ctx chat)

  unfoldable pub set_background : ChatGuid → GoString → Action S GoError
  set_background chat contents = acknowledged (svc.set_chat_background ctx chat contents)

  unfoldable pub remove_background : ChatGuid → Action S GoError
  remove_background chat = acknowledged (svc.remove_chat_background ctx chat)

  unfoldable pub mark_read : ChatGuid → Action S GoError
  mark_read chat = acknowledged (svc.mark_chat_read ctx chat)

  unfoldable pub share_contact_info : ChatGuid → Action S GoError
  share_contact_info chat = acknowledged (svc.share_chat_contact_info ctx chat)

  unfoldable pub set_typing : ChatGuid → Bool → Action S GoError
  set_typing chat is_typing = acknowledged (svc.set_chat_typing ctx chat is_typing)

  -- `Subscribe`, up to the call of `transport.Subscribe`.
  unfoldable pub subscribe :
      Option SubscribeOptions → Opened S (PbFrame PbChatChangeEvent) ChatEvent
  subscribe opts = record {
    open_stream = svc.subscribe_chat_events ctx (chat_filter opts);
    convert = λ frame. emitted (chat_event_from_proto frame);
  }
