-- ===== src/Services/Polls.antt =====
-- polls.go: `PollClient`.
use advanced_imessage_go.Prelude.{List, Option, none, some}
use advanced_imessage_go.Prelude.Text.{GoString}
use advanced_imessage_go.ChatGuid.{ChatGuid}
use advanced_imessage_go.Errors.Chain.{ConnectText}
use advanced_imessage_go.Transport.Runtime.{Action, Outcome, Context}
use advanced_imessage_go.Model.Poll.{Poll}
use advanced_imessage_go.Model.MessageInput.{IdempotencyOptions}
use advanced_imessage_go.Wire.Changes.{PbPoll, PbFrame, PbPollChangeEvent}
use advanced_imessage_go.Convert.Poll.{poll_from_proto}
use advanced_imessage_go.Model.Events.{PollEvent}
use advanced_imessage_go.Wire.Common.{Timestamps}
use advanced_imessage_go.Convert.Events.{poll_event_from_proto}
use advanced_imessage_go.Convert.Outgoing.{given}
use advanced_imessage_go.Streams.{Frames, Opened, emitted}
use advanced_imessage_go.Services.{answered, client_message_id_of}

pub record PbCreatePoll : Type 0 where
  pub chat_guid : GoString
  pub title : GoString
  pub options : List GoString
  pub client_message_id : Option GoString

-- The generated `PollServiceClient`; the last argument of a change is the client message id.
pub record PollService (S : Type 0) : Type 0 where
  pub create_poll : Context → PbCreatePoll → Action S (Outcome (Option PbPoll))
  pub get_poll : Context → GoString → Action S (Outcome (Option PbPoll))
  pub vote_poll :
      Context
      → GoString
      → (option_id : GoString) → Option GoString
      → Action S (Outcome (Option PbPoll))
  pub unvote_poll : Context → GoString → Option GoString → Action S (Outcome (Option PbPoll))
  pub add_poll_option :
      Context → GoString → (text : GoString) → Option GoString → Action S (Outcome (Option PbPoll))
  pub subscribe_poll_events :
      Context → Option GoString → Action S (Outcome (Frames (PbFrame PbPollChangeEvent)))

-- `PollSubscribeOptions`
pub record PollSubscribeOptions : Type 0 where
  pub poll_message : GoString

abbrev poll_filter : Option PollSubscribeOptions → Option GoString
poll_filter none = none
poll_filter (some opts) = given opts.poll_message

module _ ⦃ct : ConnectText⦄ {S : Type 0} (svc : PollService S) (ctx : Context) where
  unfoldable pub create :
      ChatGuid → GoString → List GoString → Option IdempotencyOptions → Action S (Outcome Poll)
  create chat title choices opts = answered poll_from_proto (
      svc.create_poll ctx (record {
        chat_guid = chat;
        title = title;
        options = choices;
        client_message_id = client_message_id_of opts;
      }))

  unfoldable pub get : GoString → Action S (Outcome Poll)
  get guid = answered poll_from_proto (svc.get_poll ctx guid)

  unfoldable pub vote : GoString → GoString → Option IdempotencyOptions → Action S (Outcome Poll)
  vote guid option_id opts =
      answered poll_from_proto (svc.vote_poll ctx guid option_id (client_message_id_of opts))

  unfoldable pub unvote : GoString → Option IdempotencyOptions → Action S (Outcome Poll)
  unvote guid opts = answered poll_from_proto (svc.unvote_poll ctx guid (client_message_id_of opts))

  unfoldable pub add_option :
      GoString → GoString → Option IdempotencyOptions → Action S (Outcome Poll)
  add_option guid text opts =
      answered poll_from_proto (svc.add_poll_option ctx guid text (client_message_id_of opts))

-- `Subscribe`, up to the call of `transport.Subscribe`.
unfoldable pub subscribe :
    ⦃ts : Timestamps⦄ {S : Type 0}
    → PollService S
    → Context
    → Option PollSubscribeOptions
    → Opened S (PbFrame PbPollChangeEvent) PollEvent
subscribe svc ctx opts = record {
  open_stream = svc.subscribe_poll_events ctx (poll_filter opts);
  convert = λ frame. emitted (poll_event_from_proto frame);
}
