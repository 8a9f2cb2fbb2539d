-- ===== src/Echo.antt =====
-- examples/echo/main.go: the bot that answers every text message with its own text, from its
-- subscription on; its log lines are left out.
pub mod Answered
pub mod Replies
use advanced_imessage_go.Prelude.{
  List, [], ◌∷◌, ◌++◌, Bool, true, false, not, Option, none, some, if◌then◌else◌,
}
use advanced_imessage_go.Prelude.Int.{ℤ, pos}
use advanced_imessage_go.Prelude.Text.{GoString, bytes, str_eq, is_empty}
use advanced_imessage_go.ChatGuid
use advanced_imessage_go.ChatGuid.{
  ParseError, ParseResult, malformed, empty_service, bad_kind, empty_identifier, direct_kind,
  group_kind, parse_chat_guid,
}
use advanced_imessage_go.Errors.Chain.{GoError, nil, opaque, is_canceled, ConnectText}
use advanced_imessage_go.Errors.Convert.{is_rate_limited}
use advanced_imessage_go.Transport.Runtime.{Action, Outcome, ok, fail, Context}
use advanced_imessage_go.Model.Kinds.{item_normal}
use advanced_imessage_go.Model.Message.{Message}
use advanced_imessage_go.Model.MessageInput.{SendTextOptions}
use advanced_imessage_go.Model.Events.{MessageReceived, MessageEvent, message_received}
use advanced_imessage_go.Wire.Common.{Timestamps}
use advanced_imessage_go.Messages.{MessageService}
use advanced_imessage_go.Messages.Sending.{send_text}
use advanced_imessage_go.Messages.Reading.{subscribe}
use advanced_imessage_go.Streams.{drained}

-- The options of a threaded reply to a message.
abbrev pub reply_options : GoString → SendTextOptions
reply_options guid = record {
  reply_to = some (record { guid = guid; part_index = none });
  subject = [];
  effect = [];
  enable_data_detection = false;
  enable_link_preview = false;
  formatting = [];
  client_message_id = [];
}

-- Nanoseconds: the pause after a rate limit, 2 s.
abbrev pub rate_limit_pause : ℤ
rate_limit_pause = pos 2000000000

-- The error of `ParseChatGUID`, over the verb %q.
abbrev guid_error : (GoString → GoString) → ParseError → GoError
guid_error quote e =
    let invalid : GoString → GoString → GoError =
      λ s why. opaque (bytes "imessage: invalid chat guid " ++ (quote s ++ (bytes ": " ++ why))) in
    elim e [
      | malformed s ↦ invalid s (bytes "want <service>;<kind>;<identifier>")
      | empty_service s ↦ invalid s (bytes "empty service")
      | bad_kind s ↦
          invalid s
            (bytes "kind must be " ++ (quote direct_kind ++ (bytes " or " ++ quote group_kind)))
      | empty_identifier s ↦ invalid s (bytes "empty identifier")
    ]

abbrev sent_error : Outcome Message → GoError
sent_error (ok sent) = nil
sent_error (fail err) = err

-- The end of `run`: a cancelled context is no error.
unfoldable pub finish : GoError → GoError
finish nil = nil
finish err = if is_canceled err then nil else err

-- `trim_space` is `strings.TrimSpace`, and `sleep` is `time.Sleep` on the state.
module _ ⦃ct : ConnectText⦄ ⦃ts : Timestamps⦄ {S : Type 0} (trim_space : GoString → GoString)
    (sleep : ℤ → S → S) (svc : MessageService S) (ctx : Context) (prefix : GoString) where
  unfoldable pub reply : MessageReceived → GoString → Action S GoError
  reply recv text s = elim (parse_chat_guid recv.event_context.chat_guid) [
    | ParseResult.err e ↦ (guid_error svc.quote e, s)
    | ParseResult.ok chat ↦
        let (sent, s') = send_text svc ctx chat text (some (reply_options recv.message.guid)) s in
        (sent_error sent, s')
  ]

  abbrev pub after_reply : GoError × S → S
  after_reply (err, s) = if is_rate_limited err then sleep rate_limit_pause s else s

  -- The body of the loop.
  unfoldable pub echo_step : MessageEvent → S → S
  unfolding reply
  echo_step (message_received recv) s =
      if recv.event_context.is_from_me
      then s
      else if not (str_eq recv.message.item_type item_normal)
      then s
      else let text = trim_space recv.message.content.text in
        if is_empty text then s else after_reply (reply recv (prefix ++ text) s)
  echo_step _ s = s

  unfoldable pub echo : List MessageEvent → S → S
  unfolding echo_step
  echo [] s = s
  echo (ev ∷ events) s = echo events (echo_step ev s)

  -- `run` from the call of `Subscribe` on.
  unfoldable pub serve : Action S GoError
  unfolding echo finish
  serve s =
      let (sub, s') = drained (subscribe svc ctx none) s in (finish sub.err, echo sub.events s')
