-- ===== src/Echo/Answered.antt =====
-- The messages that examples/echo/main.go is to answer, and the answers.
use advanced_imessage_go.Prelude.{
  List, [], ◌∷◌, ◌++◌, false, none, some, ◌≡◌, ◌≢◌, ◌⊎◌, inl, inr, refl, Bool-cases,
}
use advanced_imessage_go.Prelude.Text.{GoString, str_eq, str_eq_iff, empty_cases}
use advanced_imessage_go.ChatGuid.{ParseResult, parse_chat_guid}
use advanced_imessage_go.ChatGuid.Parsing.{IsWellFormed, parse_chat_guid_ok_iff}
use advanced_imessage_go.Model.Kinds.{item_normal}
use advanced_imessage_go.Model.Events.{MessageReceived, MessageEvent, message_received}
use advanced_imessage_go.Wire.Requests.{PbSendText}

module _ (trim_space : GoString → GoString) (prefix : GoString) where
  -- The messages that are answered: ordinary text bubbles of other people, in a valid chat.
  abbrev pub IsAnswered : MessageReceived → Type 0
  IsAnswered recv =
      (recv.event_context.is_from_me ≡ false)
      × (recv.message.item_type ≡ item_normal)
      × (trim_space recv.message.content.text ≢ [])
      × IsWellFormed recv.event_context.chat_guid

  abbrev pub answer : MessageReceived → PbSendText
  answer recv = record {
    chat_guid = recv.event_context.chat_guid;
    text = prefix ++ trim_space recv.message.content.text;
    reply_to = some (record { message_guid = recv.message.guid; target_part_index = none });
    subject = none;
    effect_id = none;
    enable_data_detection = none;
    enable_link_preview = none;
    formatting = [];
    client_message_id = none;
  }

  -- The requests that answer a list of events: one for each message that is to be answered, in
  -- order, and none for anything else.
  pub data Answers : List MessageEvent → List PbSendText → Type 0 where
    no_events : Answers [] []
    replied :
        (recv : MessageReceived) {events : List MessageEvent} {reqs : List PbSendText}
        → IsAnswered recv
        → Answers events reqs
        → Answers (message_received recv ∷ events) (answer recv ∷ reqs)
    ignored :
        (ev : MessageEvent) {events : List MessageEvent} {reqs : List PbSendText}
        → ((recv : MessageReceived) → ev ≡ message_received recv → IsAnswered recv → ⊥)
        → Answers events reqs
        → Answers (ev ∷ events) reqs

  pub IsWellFormed-cases : (guid : GoString) → IsWellFormed guid ⊎ (IsWellFormed guid → ⊥)
  IsWellFormed-cases guid = parsed (parse_chat_guid guid) refl
    where
      parsed :
          (r : ParseResult) → parse_chat_guid guid ≡ r → IsWellFormed guid ⊎ (IsWellFormed guid → ⊥)
      parsed (ParseResult.ok chat) h = inl ((parse_chat_guid_ok_iff guid chat).0 h).1
      parsed (ParseResult.err e) h =
          inr (λ formed. let valid = (parse_chat_guid_ok_iff guid guid).1 (refl, formed) in cc)

  pub IsAnswered-cases : (recv : MessageReceived) → IsAnswered recv ⊎ (IsAnswered recv → ⊥)
  IsAnswered-cases recv = elim (Bool-cases recv.event_context.is_from_me) [
    | inl mine ↦ inr (λ h. let theirs = h.0 in cc)
    | inr theirs ↦ elim (Bool-cases (str_eq recv.message.item_type item_normal)) [
      | inr other ↦
          inr (λ h. let normal = (str_eq_iff recv.message.item_type item_normal).1 h.1 in cc)
      | inl normal ↦ elim (empty_cases (trim_space recv.message.content.text)) [
        | inl (e, blank) ↦ inr (λ h. h.2 blank)
        | inr (e, filled) ↦ elim (IsWellFormed-cases recv.event_context.chat_guid) [
          | inl formed ↦
              inl (theirs, (str_eq_iff recv.message.item_type item_normal).0 normal, filled, formed)
          | inr bad ↦ inr (λ h. bad h.3)
        ]
      ]
    ]
  ]
