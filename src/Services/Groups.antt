-- ===== src/Services/Groups.antt =====
-- groups.go: `GroupClient`.
use advanced_imessage_go.Prelude.{List, Option}
use advanced_imessage_go.Prelude.Text.{GoString}
use advanced_imessage_go.ChatGuid.{ChatGuid}
use advanced_imessage_go.Errors.Chain.{GoError, ConnectText}
use advanced_imessage_go.Transport.Runtime.{Action, Outcome, Context}
use advanced_imessage_go.Model.Chat.{Chat}
use advanced_imessage_go.Model.Group.{GroupIcon}
use advanced_imessage_go.Model.MessageInput.{IdempotencyOptions}
use advanced_imessage_go.Wire.Common.{Timestamps}
use advanced_imessage_go.Wire.Message.{PbChat}
use advanced_imessage_go.Convert.Message.{chat_from_proto}
use advanced_imessage_go.Model.Events.{GroupEvent}
use advanced_imessage_go.Wire.Changes.{PbFrame, PbGroupChangeEvent}
use advanced_imessage_go.Convert.Events.{group_event_from_proto}
use advanced_imessage_go.Streams.{Frames, Opened, emitted, SubscribeOptions, chat_filter}
use advanced_imessage_go.Services.{answered, acknowledged, client_message_id_of}

-- The generated `GroupServiceClient`; the last argument of a change is the client message id.
pub record GroupService (S : Type 0) : Type 0 where
  pub set_group_name :
      Context → ChatGuid → GoString → Option GoString → Action S (Outcome (Option PbChat))
  pub add_group_participants :
      Context → ChatGuid → List GoString → Option GoString → Action S (Outcome (Option PbChat))
  pub remove_group_participants :
      Context → ChatGuid → List GoString → Option GoString → Action S (Outcome (Option PbChat))
  pub leave_group : Context → ChatGuid → Option GoString → Action S GoError
  pub set_group_icon : Context → ChatGuid → GoString → Option GoString → Action S GoError
  pub get_group_icon : Context → ChatGuid → Action S (Outcome GroupIcon)
  pub remove_group_icon : Context → ChatGuid → Option GoString → Action S GoError
  pub subscribe_group_events :
      Context → Option GoString → Action S (Outcome (Frames (PbFrame PbGroupChangeEvent)))

module _ ⦃ct : ConnectText⦄ ⦃ts : Timestamps⦄ {S : Type 0} (svc : GroupService S)
    (ctx : Context) where
  unfoldable pub set_display_name :
      ChatGuid → GoString → Option IdempotencyOptions → Action S (Outcome Chat)
  set_display_name chat name opts =
      answered chat_from_proto (svc.set_group_name ctx chat name (client_message_id_of opts))

  unfoldable pub add_participants :
      ChatGuid → List GoString → Option IdempotencyOptions → Action S (Outcome Chat)
  add_participants chat addresses opts =
      answered chat_from_proto
        (svc.add_group_participants ctx chat addresses (client_message_id_of opts))

  unfoldable pub remove_participants :
      ChatGuid → List GoString → Option IdempotencyOptions → Action S (Outcome Chat)
  remove_participants chat addresses opts =
      answered chat_from_proto
        (svc.remove_group_participants ctx chat addresses (client_message_id_of opts))

  unfoldable pub leave_chat : ChatGuid → Option IdempotencyOptions → Action S GoError
  leave_chat chat opts = acknowledged (svc.leave_group ctx chat (client_message_id_of opts))

  unfoldable pub set_icon : ChatGuid → GoString → Option IdempotencyOptions → Action S GoError
  set_icon chat contents opts =
      acknowledged (svc.set_group_icon ctx chat contents (client_message_id_of opts))

  unfoldable pub get_icon : ChatGuid → Action S (Outcome GroupIcon)
  get_icon chat = answered (λ icon. icon) (svc.get_group_icon ctx chat)

  unfoldable pub remove_icon : ChatGuid → Option IdempotencyOptions → Action S GoError
  remove_icon chat opts = acknowledged (svc.remove_group_icon ctx chat (client_message_id_of opts))

  -- `Subscribe`, up to the call of `transport.Subscribe`.
  unfoldable pub subscribe :
      Option SubscribeOptions → Opened S (PbFrame PbGroupChangeEvent) GroupEvent
  subscribe opts = record {
    open_stream = svc.subscribe_group_events ctx (chat_filter opts);
    convert = λ frame. emitted (group_event_from_proto frame);
  }
