-- ===== src/Services/Chats/Creating.antt =====
-- What `ChatClient.Create` of chats.go asks the server for.
use advanced_imessage_go.Prelude.{List, [], none, some, ◌≡◌, ◌⊎◌, refl, arith}
use advanced_imessage_go.Prelude.Text.{GoString, empty_cases}
use advanced_imessage_go.Errors.Chain.{ConnectText}
use advanced_imessage_go.Transport.Runtime.{Context}
use advanced_imessage_go.Model.Chat.{CreateChatOptions}
use advanced_imessage_go.Wire.Common.{Timestamps, PbServiceType}
use advanced_imessage_go.Convert.Outgoing.{given}
use advanced_imessage_go.Services.{answered}
use advanced_imessage_go.Services.Chats.{
  ChatService, PbCreateChat, PbInitialMessage, initial_message_of, create_chat_request,
  created_chat, create,
}

-- Nothing of a message is given.
abbrev pub IsSilent : CreateChatOptions → Type 0
IsSilent opts =
    (opts.message ≡ []) × (opts.attributed_body ≡ []) × (opts.subject ≡ []) × (opts.effect ≡ [])

-- The message with the text, and with the other parts that are given.
abbrev message_of : CreateChatOptions → PbInitialMessage
message_of opts = record {
  text = opts.message;
  attributed_body = given opts.attributed_body;
  effect_id = given opts.effect;
  subject = given opts.subject;
}

initial_message_of_lem :
    (opts : CreateChatOptions)
    → (IsSilent opts × (initial_message_of opts ≡ none))
      ⊎ ((IsSilent opts → ⊥) × (initial_message_of opts ≡ some (message_of opts)))
unfolding initial_message_of
initial_message_of_lem opts = ground (
  arith,
  empty_cases opts.message,
  empty_cases opts.attributed_body,
  empty_cases opts.subject,
  empty_cases opts.effect,
)

module _ ⦃ct : ConnectText⦄ ⦃ts : Timestamps⦄ where
  -- `Create` with options makes one call, for an iMessage chat with the addresses. The call asks
  -- for an initial message exactly if the options give a text, a body, a subject or an effect, and
  -- then for that text with the other parts that are given.
  pub create_request :
      {S : Type 0} (svc : ChatService S) (ctx : Context) (addresses : List GoString)
      (opts : CreateChatOptions) (s : S)
      → (req : PbCreateChat) × (create svc ctx addresses (some opts) s
          ≡ answered created_chat (svc.create_chat ctx req) s)
        × (req.addresses ≡ addresses)
        × (req.service ≡ PbServiceType.imessage)
        × (req.client_message_id ≡ given opts.client_message_id)
        × ((IsSilent opts × (req.initial_message ≡ none))
            ⊎ ((IsSilent opts → ⊥) × (req.initial_message ≡ some (message_of opts))))
  unfolding create create_chat_request
  create_request svc ctx addresses opts s = (
    create_chat_request addresses (some opts),
    refl,
    refl,
    refl,
    refl,
    initial_message_of_lem opts,
  )
