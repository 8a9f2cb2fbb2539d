-- ===== src/Echo/Replies.antt =====
-- What examples/echo/main.go sends.
use mathlib.Core.Path.{subst}
use mathlib.Core.List.{append_assoc, append-nil}
use advanced_imessage_go.Prelude.{
  List, [], ◌∷◌, ◌++◌, true, false, none, ◌≡◌, ◌⊎◌, inl, inr, refl, sym, ap, ◌∙◌, arith, Bool-cases,
}
use advanced_imessage_go.Prelude.Int.{ℤ}
use advanced_imessage_go.Prelude.Text.{GoString, str_eq, str_eq_iff, is_empty, empty_cases}
use advanced_imessage_go.ChatGuid.{ParseResult, parse_chat_guid}
use advanced_imessage_go.ChatGuid.Parsing.{IsWellFormed, parse_chat_guid_ok_iff}
use advanced_imessage_go.Errors.Chain.{GoError, ConnectText}
use advanced_imessage_go.Errors.Convert.{is_rate_limited}
use advanced_imessage_go.Transport.Runtime.{ok, Context}
use advanced_imessage_go.Transport.Subscription.Delivery.{run_source}
use advanced_imessage_go.Model.Kinds.{item_normal}
use advanced_imessage_go.Model.Events.{MessageReceived, MessageEvent, message_received}
use advanced_imessage_go.Wire.Common.{Timestamps}
use advanced_imessage_go.Wire.Changes.{PbFrame, PbMessageChangeEvent}
use advanced_imessage_go.Wire.Requests.{PbSendText}
use advanced_imessage_go.Convert.Events.{message_event_from_proto}
use advanced_imessage_go.Convert.Outgoing.{text_format_inputs_to_proto, reply_target_to_proto}
use advanced_imessage_go.Messages.{MessageService, send_text_request}
use advanced_imessage_go.Messages.Sending.{send_text}
use advanced_imessage_go.Messages.Reading.{subscribe}
use advanced_imessage_go.Streams.{chat_filter, drained}
use advanced_imessage_go.Streams.Drained.{kept, run_kept_all}
use advanced_imessage_go.Echo.{reply, after_reply, echo_step, echo, serve}
use advanced_imessage_go.Echo.Answered.{
  IsAnswered, answer, Answers, no_events, replied, ignored, IsAnswered-cases,
}

module _ ⦃ct : ConnectText⦄ ⦃ts : Timestamps⦄ {S : Type 0} (trim_space : GoString → GoString)
    (sleep : ℤ → S → S) (svc : MessageService S) (ctx : Context) (prefix : GoString)
    (log : S → List PbSendText) where
  -- The log of the requests of `SendText`.
  abbrev pub LogsRequests : Type 0
  LogsRequests =
      ((req : PbSendText) (s : S) → log (svc.send_text_message ctx req s).1 ≡ log s ++ req ∷ [])
      × ((d : ℤ) (s : S) → log (sleep d s) ≡ log s)
      × ((s : S) → log (svc.subscribe_message_events ctx none s).1 ≡ log s)

  after_reply-log :
      LogsRequests
      → (err : GoError) (s : S) → log (after_reply trim_space sleep svc ctx prefix (err, s)) ≡ log s
  after_reply-log (sends, sleeps, opens) err s = elim (Bool-cases (is_rate_limited err)) [
    | inl e ↦ rw e (sleeps _ s)
    | inr e ↦ rw e refl
  ]

  reply_sends :
      LogsRequests
      → (recv : MessageReceived) (s : S) → IsWellFormed recv.event_context.chat_guid
      → log
          (reply trim_space sleep svc ctx prefix recv
            (prefix ++ trim_space recv.message.content.text)
            s).1
        ≡ log s ++ answer trim_space prefix recv ∷ []
  unfolding reply send_text send_text_request text_format_inputs_to_proto reply_target_to_proto
  reply_sends (sends, sleeps, opens) recv s formed =
      let guid = recv.event_context.chat_guid in
      let valid = (parse_chat_guid_ok_iff guid guid).1 (refl, formed) in
      rw (valid, reply) (sends _ s)

  reply_refuses :
      (recv : MessageReceived) (text : GoString) (s : S)
      → (IsWellFormed recv.event_context.chat_guid → ⊥)
      → (reply trim_space sleep svc ctx prefix recv text s).1 ≡ s
  unfolding reply
  reply_refuses recv text s bad = parsed (parse_chat_guid recv.event_context.chat_guid) refl
    where
      parsed :
          (r : ParseResult)
          → parse_chat_guid recv.event_context.chat_guid ≡ r
          → (reply trim_space sleep svc ctx prefix recv text s).1 ≡ s
      parsed (ParseResult.err e) h = rw (h, reply) refl
      parsed (ParseResult.ok chat) h =
          absurd (bad ((parse_chat_guid_ok_iff recv.event_context.chat_guid chat).0 h).1)

  abbrev step : MessageEvent → S → S
  step = echo_step trim_space sleep svc ctx prefix

  -- A message that is ordinary text of somebody else: it is answered if the chat is valid.
  step_replies :
      (recv : MessageReceived) (s : S)
      → recv.event_context.is_from_me ≡ false
      → str_eq recv.message.item_type item_normal ≡ true
      → is_empty (trim_space recv.message.content.text) ≡ false
      → step (message_received recv) s
        ≡ after_reply trim_space sleep svc ctx prefix (
            reply trim_space sleep svc ctx prefix recv
              (prefix ++ trim_space recv.message.content.text)
              s)
  unfolding echo_step
  step_replies recv s theirs normal filled = rw (theirs, normal, filled) refl

  -- Any other message is passed over.
  step_skips :
      (recv : MessageReceived) (s : S)
      → (recv.event_context.is_from_me ≡ true)
        ⊎ (str_eq recv.message.item_type item_normal ≡ false)
        ⊎ (is_empty (trim_space recv.message.content.text) ≡ true)
      → step (message_received recv) s ≡ s
  unfolding echo_step
  step_skips recv s why = ground arith

  step-answer :
      LogsRequests
      → (recv : MessageReceived) (s : S) → IsAnswered trim_space prefix recv
      → log (step (message_received recv) s) ≡ log s ++ answer trim_space prefix recv ∷ []
  step-answer logs recv s (theirs, normal, filled, formed) =
      let text = trim_space recv.message.content.text in
      let there : is_empty text ≡ false = elim (empty_cases text) [
        | inl (e, h) ↦ absurd (filled h)
        | inr (e, h) ↦ e
      ] in
      let sent = reply trim_space sleep svc ctx prefix recv (prefix ++ text) s in
      ap log (
        step_replies recv s theirs ((str_eq_iff recv.message.item_type item_normal).1 normal) there)
      ∙ (after_reply-log logs sent.0 sent.1 ∙ reply_sends logs recv s formed)

  step_ignores :
      LogsRequests
      → (recv : MessageReceived) (s : S) → (IsAnswered trim_space prefix recv → ⊥)
      → log (step (message_received recv) s) ≡ log s
  step_ignores logs recv s unanswered =
      let text = trim_space recv.message.content.text in
      elim (Bool-cases recv.event_context.is_from_me) [
        | inl mine ↦ ap log (step_skips recv s (inl mine))
        | inr theirs ↦ elim (Bool-cases (str_eq recv.message.item_type item_normal)) [
          | inr other ↦ ap log (step_skips recv s (inr (inl other)))
          | inl normal ↦ elim (empty_cases text) [
            | inl (e, h) ↦ ap log (step_skips recv s (inr (inr e)))
            | inr (e, filled) ↦
                let sent = reply trim_space sleep svc ctx prefix recv (prefix ++ text) s in
                ap log (step_replies recv s theirs normal e)
                ∙ (after_reply-log logs sent.0 sent.1
                    ∙ ap log (
                        reply_refuses recv (prefix ++ text) s (λ formed. unanswered (
                          theirs,
                          (str_eq_iff recv.message.item_type item_normal).0 normal,
                          filled,
                          formed,
                        ))))
          ]
        ]
      ]

  echo-Answers :
      LogsRequests
      → (events : List MessageEvent) (s : S)
      → (reqs : List PbSendText) × (log (echo trim_space sleep svc ctx prefix events s)
          ≡ log s ++ reqs)
        × Answers trim_space prefix events reqs
  unfolding echo echo_step
  echo-Answers logs [] s = ([], sym (append-nil (log s)), no_events)
  echo-Answers logs (ev ∷ events) s =
      let (reqs, logged, answers) = echo-Answers logs events (step ev s) in
      from ev reqs logged answers
    where
      Goal : MessageEvent → Type 0
      Goal e =
          (all : List PbSendText) × (log (echo trim_space sleep svc ctx prefix events (step e s))
            ≡ log s ++ all)
          × Answers trim_space prefix (e ∷ events) all

      passed :
          (e : MessageEvent) (reqs : List PbSendText)
          → log (step e s) ≡ log s
          → ((recv : MessageReceived)
              → e ≡ message_received recv
              → IsAnswered trim_space prefix recv
              → ⊥)
          → log (echo trim_space sleep svc ctx prefix events (step e s)) ≡ log (step e s) ++ reqs
          → Answers trim_space prefix events reqs
          → Goal e
      passed e reqs still none_due logged answers =
          (reqs, logged ∙ ap (λ l. l ++ reqs) still, ignored e none_due answers)

      from :
          (e : MessageEvent) (reqs : List PbSendText)
          → log (echo trim_space sleep svc ctx prefix events (step e s)) ≡ log (step e s) ++ reqs
          → Answers trim_space prefix events reqs
          → Goal e
      from (message_received recv) reqs logged answers =
          elim (IsAnswered-cases trim_space prefix recv) [
            | inl due ↦ (
              answer trim_space prefix recv ∷ reqs,
              logged
                  ∙ (ap (λ l. l ++ reqs) (step-answer logs recv s due)
                      ∙ append_assoc (log s) (answer trim_space prefix recv ∷ []) reqs),
              replied recv due answers,
            )
            | inr undue ↦
                passed (message_received recv) reqs (step_ignores logs recv s undue)
                  (λ r h k. undue (
                    subst (IsAnswered trim_space prefix)
                      (sym (ap (λ x. elim x [ message_received y ↦ y | _ ↦ recv ]) h)) k))
                  logged answers
          ]
      from e reqs logged answers = passed e reqs refl (λ r h k. absurd cc) logged answers

  -- The bot answers exactly what it should. Where the subscription opens with the frames `frames`,
  -- the requests that `SendText` sends are, in order, one threaded reply for each received message
  -- of these that somebody else wrote, is an ordinary bubble with text that is not only blanks and
  -- comes from a chat with a valid GUID, and nothing for any other event, whatever the replies of
  -- the server are. `log` is the list of the requests sent so far, as a state of the server.
  pub serve-Answers :
      LogsRequests
      → (frames : List (PbFrame PbMessageChangeEvent)) (err : GoError) (s : S)
      → (svc.subscribe_message_events ctx none s).0 ≡ ok (frames, err)
      → (reqs : List PbSendText) × (log (serve trim_space sleep svc ctx prefix s).1 ≡ log s ++ reqs)
        × Answers trim_space prefix (kept message_event_from_proto frames) reqs
  unfolding serve drained subscribe run_source chat_filter
  serve-Answers logs frames err s reply =
      let (reqs, logged, answers) =
        echo-Answers logs (kept message_event_from_proto frames)
          (svc.subscribe_message_events ctx none s).1 in
      (
        reqs,
        rw (reply, run_kept_all message_event_from_proto frames err) logged
            ∙ ap (λ l. l ++ reqs) (logs.2 s),
        answers,
      )
