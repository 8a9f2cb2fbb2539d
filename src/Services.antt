-- ===== src/Services.antt =====
-- chats.go, groups.go, attachments.go, polls.go, locations.go, addresses.go and eventsvc.go: the
-- calls of the other service clients, on the generated clients.
pub mod Chats
pub mod Groups
pub mod Attachments
pub mod Polls
pub mod Locations
pub mod Addresses
pub mod Events
use advanced_imessage_go.Prelude.{Option, none, some}
use advanced_imessage_go.Prelude.Text.{GoString}
use advanced_imessage_go.Errors.Chain.{GoError, ConnectText}
use advanced_imessage_go.Errors.Convert.{as_error}
use advanced_imessage_go.Transport.Runtime.{Action, Outcome, ok, fail}
use advanced_imessage_go.Model.MessageInput.{IdempotencyOptions}
use advanced_imessage_go.Convert.Outgoing.{given}

-- `applyClientMessageID`: the field of the request.
unfoldable pub client_message_id_of : Option IdempotencyOptions → Option GoString
client_message_id_of none = none
client_message_id_of (some opts) = given opts.client_message_id

module _ ⦃ct : ConnectText⦄ {S : Type 0} where
  -- `if err != nil { return …, asError(err) }; return f(resp), nil`
  unfoldable pub answered : {A B : Type 0} → (A → B) → Action S (Outcome A) → Action S (Outcome B)
  answered f call s =
      let (reply, s') = call s in
      elim reply [ ok resp ↦ (ok (f resp), s') | fail err ↦ (fail (as_error err), s') ]

  -- `_, err := …; return asError(err)`
  unfoldable pub acknowledged : Action S GoError → Action S GoError
  acknowledged call s = let (err, s') = call s in (as_error err, s')
