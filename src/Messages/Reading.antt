-- ===== src/Messages/Reading.antt =====
-- messages.go: the operations of `MessageClient` that read messages.
use advanced_imessage_go.Prelude.{[], Option, none, some}
use advanced_imessage_go.Prelude.Text.{GoString}
use advanced_imessage_go.ChatGuid.{ChatGuid}
use advanced_imessage_go.Errors.Chain.{ConnectText}
use advanced_imessage_go.Errors.Convert.{as_error}
use advanced_imessage_go.Transport.Runtime.{Action, Outcome, ok, fail, Context}
use advanced_imessage_go.Model.Message.{Message}
use advanced_imessage_go.Model.MessageInput.{EmbeddedMedia, MessageListFilter, MessageListPage}
use advanced_imessage_go.Wire.Changes.{PbFrame, PbMessageChangeEvent}
use advanced_imessage_go.Model.Events.{MessageEvent}
use advanced_imessage_go.Convert.Events.{message_event_from_proto}
use advanced_imessage_go.Streams.{Opened, emitted, SubscribeOptions, chat_filter}
use advanced_imessage_go.Wire.Common.{Timestamps}
use advanced_imessage_go.Wire.Requests.{PbEmbeddedMedia}
use advanced_imessage_go.Messages.{
  MessageService, apply_list_filter, message_result, page_result, then_result,
}

-- A response without media gives empty fields.
unfoldable pub media_from_proto : Option PbEmbeddedMedia → EmbeddedMedia
media_from_proto none = record { contents = []; mime_type = [] }
media_from_proto (some pb) = record { contents = pb.contents; mime_type = pb.mime_type }

abbrev media_result : ⦃ct : ConnectText⦄ → Outcome (Option PbEmbeddedMedia) → Outcome EmbeddedMedia
media_result (ok media) = ok (media_from_proto media)
media_result (fail err) = fail (as_error err)

module _ ⦃ct : ConnectText⦄ ⦃ts : Timestamps⦄ {S : Type 0} (svc : MessageService S)
    (ctx : Context) where
  unfoldable pub get : GoString → Action S (Outcome Message)
  get guid = then_result message_result (svc.get_message ctx guid)

  unfoldable pub list_recent : Option MessageListFilter → Action S (Outcome MessageListPage)
  list_recent opts = then_result page_result (svc.list_recent_messages ctx (apply_list_filter opts))

  unfoldable pub list_in_chat :
      ChatGuid → Option MessageListFilter → Action S (Outcome MessageListPage)
  list_in_chat chat opts =
      then_result page_result (svc.list_chat_messages ctx chat (apply_list_filter opts))

  unfoldable pub get_embedded_media : ChatGuid → GoString → Action S (Outcome EmbeddedMedia)
  get_embedded_media chat guid = then_result media_result (svc.get_embedded_media ctx chat guid)

  -- `Subscribe`, up to the call of `transport.Subscribe`.
  unfoldable pub subscribe :
      Option SubscribeOptions → Opened S (PbFrame PbMessageChangeEvent) MessageEvent
  subscribe opts = record {
    open_stream = svc.subscribe_message_events ctx (chat_filter opts);
    convert = λ frame. emitted (message_event_from_proto frame);
  }
