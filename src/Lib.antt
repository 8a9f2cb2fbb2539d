-- ===== src/Lib.antt =====
-- The Advanced iMessage client for Go: chat identifiers, errors, the transport, the client and its
-- options, the conversions of protocol messages, the services, the subscriptions, the resumable
-- message subscription, and the token source of the examples.
--
-- A call goes through a service client that `New` (client.go) builds from the result of `Dial`
-- (internal/transport/dial.go): the interceptors authorize it, limit its time, give it an
-- idempotency key and retry it, in this order from the outside. What fails is turned into an
-- `Error` (errors.go). Events arrive as protocol frames, which the conv_*.go files turn into the
-- events of events.go. `ResumableMessages` (resumable.go) joins a catch-up stream and a live stream
-- into one subscription that keeps its position in a store. The examples get their address and
-- token source from `Connect` (examples/internal/spectrumauth/spectrumauth.go).
--
-- Files and code:
--   Prelude       tests, lists, integers, byte strings, sorting, string splitting, headers
--   ChatGuid      chatguid.go: ParseChatGUID, ChatGUID.IsGroup
--   Errors        errors.go: Codes (codes, status classes), Chain (Error and the chains that
--                 errors.Is and errors.As walk), Convert (asError, the sentinels and the Is*
--                 helpers), Categories (what callers can rely on)
--   Transport     internal/transport/interceptor.go and dial.go: Runtime (what is taken from the
--                 Connect runtime), Interceptors, Dial; Backoff, Retry, Dial/Sent,
--                 Dial/Requests and Dial/Streams hold what is shown of them;
--                 internal/transport/stream.go: Subscription, with the abstract feed that it
--                 refines in Subscription/Feed
--   Client        options.go, token.go, client.go: options, token sources, New, Close
--   Model         types_*.go and events.go: the structures, enumerations and sealed interfaces
--   Wire          the generated protocol messages, as the fields and presence bits that are read
--   Convert       conv_*.go; Outgoing is the direction from the domain to the protocol
--   Streams       stream.go and subscription.go: the public subscriptions, and what a consumer gets
--                 from the streams that the client opens
--   Messages      messages.go: the requests of the message service, on the generated client
--   Services      chats.go, groups.go, attachments.go, polls.go, locations.go, addresses.go and
--                 eventsvc.go: the calls of the other services, on the generated clients
--   Resumable     resumable.go: the engine run, catchUp, live, trySend, saveCursor, sleepBackoff;
--                 Loop has the reconnect loop, Connected its streams as calls of the client,
--                 Session the side of its consumer
--   SpectrumAuth  examples/internal/spectrumauth/spectrumauth.go: the selection of a line; Source
--                 has the exchange of credentials, the token source and Connect, Calls the
--                 source under a client
--   Echo          examples/echo/main.go: the bot from its subscription on; Answered says what it is
--                 to answer
--   SendAll       examples/send-all/main.go: the recorder; Contents and Steps have what it sends
--   Examples      runs at concrete inputs
--
-- How the code is read. Strings are lists of bytes and maps are association lists. Durations and
-- times are integers of nanoseconds; the 64-bit wrap-around of a duration is written out where the
-- code multiplies or shifts one. Floating-point numbers are opaque. A computation that uses the
-- surroundings is a function on their state: for the transport a record `Surroundings` (token
-- source, key generator, jitter, timers, contexts), for the resumable engine a record
-- `Environment` (store, streams, consumer, context, timer). Where other code ranges over a stream,
-- the stream is the list of the events that it delivers with its final error; how this follows from
-- the step relation is the subject of Streams/Drained. A map that the code iterates is a list in
-- the order of the iteration. `slices.SortFunc` is a sort of which only its contract is used.
--
-- Bounds and fuel. `retryInterceptor` is recursion on the attempts that are left, which start at
-- MaxAttempts, so it always ends with a reply. The loop of `run` has no end of its own: it is
-- modelled for any number of rounds, and what is shown holds for each. Bounds on the settings stand
-- as hypotheses of the theorems.
--
-- A transport subscription is a state with a step relation: the goroutine, the consumer, Close and
-- the context take their steps in any order, and what is shown holds after any number of them. The
-- consumer's side of the resumable subscription is such a state too, over any goroutine in the place
-- of `run`. A send on
-- an unbuffered channel and the receive that takes it are one step.
--
-- Not modelled: the flags, signals and log lines of examples/echo and examples/send-all, up to
-- their first call on the client; the generated protocol code, the Connect runtime, the HTTP client
-- and the JSON and PNG codecs, which are parameters; the tests.
pub mod Prelude
pub mod ChatGuid
pub mod Errors
pub mod Transport
pub mod Model
pub mod Wire
pub mod Convert
pub mod Streams
pub mod Resumable
pub mod Examples
pub mod Client
pub mod Messages
pub mod Services
pub mod SpectrumAuth
pub mod Echo
pub mod SendAll
