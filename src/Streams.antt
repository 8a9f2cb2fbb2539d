-- ===== src/Streams.antt =====
-- stream.go and subscription.go: the public subscriptions, over a transport subscription or over
-- an iterator of the caller, and the calls that open a stream.
pub mod Drained
pub mod Replayed
use advanced_imessage_go.Prelude.{List, [], ◌∷◌, Bool, true, false, Option, none, some}
use advanced_imessage_go.Errors.Chain.{GoError, nil, ConnectText}
use advanced_imessage_go.Errors.Convert.{as_error}
use advanced_imessage_go.Transport.Runtime.{Action, Outcome}
use advanced_imessage_go.Transport.Subscription.{Mapped, emit, drop}
use advanced_imessage_go.Transport.Subscription.Delivery.{run_source}
use advanced_imessage_go.ChatGuid.{ChatGuid}
use advanced_imessage_go.Prelude.Text.{GoString}
use advanced_imessage_go.Convert.Outgoing.{given}
use advanced_imessage_go.Model.Events.{MessageEvent, ChatEvent, GroupEvent, PollEvent, CatchUpEvent}
use advanced_imessage_go.Model.Location.{LocationUpdate}
use advanced_imessage_go.Model.Attachment.{DownloadChunk}

-- `iter.Seq` over the state `C` of the consumer: the body of the loop is called with each value
-- until it returns false.
abbrev pub Seq : Type 0 → Type 0 → Type 0
Seq C V = (V → Action C Bool) → C → C

-- `slices.Values`
unfoldable pub values : {C V : Type 0} → List V → Seq C V
values [] yield c = c
values (v ∷ vs) yield c =
    let (more, c') = yield v c in elim more [ true ↦ values vs yield c' | false ↦ c' ]

-- `eventSource`, over the state `S` of the source: a loop over `Events()`, `Err` and `Close`.
pub record EventSource (S C V : Type 0) : Type 0 where
  pub events : (V → Action C Bool) → S × C → S × C
  pub err : S → GoError
  pub close : S → GoError × S

-- `stream`: only the error is translated.
unfoldable pub stream : ⦃ct : ConnectText⦄ {S C V : Type 0} → EventSource S C V → EventSource S C V
stream src = record { events = src.events; err = λ s. as_error (src.err s); close = src.close }

-- `seqSource`; a nil iterator is `none`.
pub record SeqSource (C V : Type 0) : Type 0 where
  pub events : Option (Seq C V)
  pub err : GoError

abbrev iterated : {C V : Type 0} → Option (Seq C V) → Seq C V
iterated none yield c = c
iterated (some seq) yield c = seq yield c

unfoldable pub seq_source : {C V : Type 0} → EventSource (SeqSource C V) C V
seq_source = record {
  events = λ yield (s, c). (s, iterated s.events yield c);
  err = λ s. s.err;
  close = λ s. (nil, s);
}

-- What the constructors have in common.
abbrev pub new_subscription : {C V : Type 0} → Option (Seq C V) → SeqSource C V
new_subscription seq = record { events = seq; err = nil }

abbrev pub new_message_subscription :
    {C : Type 0} → Option (Seq C MessageEvent) → SeqSource C MessageEvent
new_message_subscription seq = new_subscription seq

abbrev pub new_chat_subscription : {C : Type 0} → Option (Seq C ChatEvent) → SeqSource C ChatEvent
new_chat_subscription seq = new_subscription seq

abbrev pub new_group_subscription :
    {C : Type 0} → Option (Seq C GroupEvent) → SeqSource C GroupEvent
new_group_subscription seq = new_subscription seq

abbrev pub new_poll_subscription : {C : Type 0} → Option (Seq C PollEvent) → SeqSource C PollEvent
new_poll_subscription seq = new_subscription seq

abbrev pub new_catch_up_stream :
    {C : Type 0} → Option (Seq C CatchUpEvent) → SeqSource C CatchUpEvent
new_catch_up_stream seq = new_subscription seq

abbrev pub new_location_watch :
    {C : Type 0} → Option (Seq C LocationUpdate) → SeqSource C LocationUpdate
new_location_watch seq = new_subscription seq

abbrev pub new_download_stream :
    {C : Type 0} → Option (Seq C DownloadChunk) → SeqSource C DownloadChunk
new_download_stream seq = new_subscription seq

-- What a loop over a transport subscription of the client gives if nothing is cancelled and the
-- consumer takes everything: the events, and `Err` after them.
pub record Stream (A : Type 0) : Type 0 where
  pub events : List A
  pub err : GoError

-- What the streams of one kind send: the frames, and the final error of the stream.
abbrev pub Frames : Type 0 → Type 0
Frames F = List F × GoError

-- The arguments of `transport.Subscribe`: `open` and `mapFn`.
pub record Opened (S F V : Type 0) : Type 0 where
  pub open_stream : Action S (Outcome (Frames F))
  pub convert : F → Mapped V

-- The result of a conversion that has no error.
abbrev pub emitted : {V : Type 0} → Option V → Mapped V
emitted none = drop
emitted (some v) = emit v

unfoldable pub drained : ⦃ct : ConnectText⦄ {S F V : Type 0} → Opened S F V → Action S (Stream V)
drained sub s =
    let (reply, s') = sub.open_stream s in
    let (events, err) = run_source sub.convert reply in
    (record { events = events; err = as_error err }, s')

-- `SubscribeOptions`, and the chat of a subscription request.
pub record SubscribeOptions : Type 0 where
  pub chat : ChatGuid

unfoldable pub chat_filter : Option SubscribeOptions → Option GoString
chat_filter none = none
chat_filter (some opts) = given opts.chat
