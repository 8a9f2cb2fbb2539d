-- ===== src/Resumable/Connected.antt =====
-- resumable.go on the client: the streams of the engine are those of `EventClient.CatchUp` and
-- `MessageClient.Subscribe`, over the transport and the conversions.
pub mod Frames
pub mod Rounds
use advanced_imessage_go.Prelude.{ℕ, Bool, some}
use advanced_imessage_go.Prelude.Int.{ℤ}
use advanced_imessage_go.ChatGuid.{ChatGuid}
use advanced_imessage_go.Errors.Chain.{GoError, ConnectText}
use advanced_imessage_go.Transport.Runtime.{Action, Context}
use advanced_imessage_go.Model.Events.{MessageEvent}
use advanced_imessage_go.Wire.Common.{Timestamps}
use advanced_imessage_go.Messages.{MessageService}
use advanced_imessage_go.Messages.Reading.{subscribe}
use advanced_imessage_go.Services.Events.{EventService, catch_up}
use advanced_imessage_go.Streams.{drained}
use advanced_imessage_go.Resumable.{Environment, Loaded}

-- What the engine takes from its surroundings besides the client: the store, the context, the
-- consumer and the timer.
pub record Host (S : Type 0) : Type 0 where
  pub has_store : Bool
  pub load : Action S Loaded
  pub save : ℕ → Action S GoError
  pub done : Action S Bool
  pub accepts : MessageEvent → Action S Bool
  pub accepts_error : GoError → Action S Bool
  pub sleeps : ℤ → Action S Bool

-- `r.client.Events().CatchUp(ctx, *cursor)` and
-- `r.client.Messages().Subscribe(ctx, &SubscribeOptions{Chat: r.chat})`.
unfoldable pub connected :
    ⦃ct : ConnectText⦄ ⦃ts : Timestamps⦄ {S : Type 0}
    → MessageService S
    → EventService S
    → Context
    → Host S
    → Environment S
connected messages events ctx host = record {
  has_store = host.has_store;
  load = host.load;
  save = host.save;
  done = host.done;
  catch_up_stream = λ n. drained (catch_up events ctx n);
  live_stream = λ chat. drained (subscribe messages ctx (some (record { chat = chat })));
  accepts = host.accepts;
  accepts_error = host.accepts_error;
  sleeps = host.sleeps;
}
