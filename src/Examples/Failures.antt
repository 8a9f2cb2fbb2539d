-- ===== src/Examples/Failures.antt =====
-- Failed calls: a status of the server, a passed deadline, an error of the network.
use advanced_imessage_go.Prelude.{[], ◌∷◌, false, none, Option, ◌≡◌, refl}
use advanced_imessage_go.Prelude.Text.{bytes, str_eq}
use advanced_imessage_go.Prelude.Header.{Header, header_get}
use advanced_imessage_go.Errors.Codes
use advanced_imessage_go.Errors.Codes.{code_timeout, code_network_error, code_chat_not_found}
use advanced_imessage_go.Errors.Chain.{
  Error, GoError, nil, connect_error, wrapped, ConnectText, errors_is, as_imessage, as_connect,
  ConnectError,
}
use advanced_imessage_go.Errors.Convert.{as_error, is_retryable, code_of}
use advanced_imessage_go.Errors.Categories.{HasCategories, as_error-HasCategories, as_error_details}

abbrev texts : ConnectText
texts = record { code_text = λ c. bytes "status"; error_text = λ c m. m }

abbrev details : Header
details =
    (bytes "Error-Code", bytes "chatNotFound" ∷ []) ∷ (bytes "X-Retryable", bytes "true" ∷ []) ∷ []

abbrev missing_chat : ConnectError
missing_chat = record { code = Codes.not_found; message = bytes "no such chat"; meta = details }

abbrev missing : GoError
missing = wrapped (bytes "call") (connect_error Codes.not_found (bytes "no such chat") details nil)

abbrev chat_not_found : Error
chat_not_found = record {
  code = code_chat_not_found;
  connect_code = Codes.not_found;
  message = [];
  retryable = false;
  context = none;
}

missing-imessage : as_imessage missing ≡ none
unfolding as_imessage
missing-imessage = refl

missing-connect : as_connect missing ≡ Option.some missing_chat
unfolding as_connect
missing-connect = refl

as_error-HasCategories_example : HasCategories (as_error ⦃ct = texts⦄ missing) Codes.not_found
as_error-HasCategories_example =
    as_error-HasCategories ⦃ct = texts⦄ missing {ce = missing_chat} missing-imessage missing-connect

as_error_details_example :
    (is_retryable (as_error ⦃ct = texts⦄ missing)
      ≡ str_eq (header_get details (bytes "X-Retryable")) (bytes "true"))
    × (errors_is (as_error ⦃ct = texts⦄ missing) chat_not_found
        ≡ str_eq (code_of (as_error ⦃ct = texts⦄ missing)) code_chat_not_found)
as_error_details_example =
    as_error_details ⦃ct = texts⦄ missing {ce = missing_chat} chat_not_found missing-imessage
      missing-connect (λ h. cc)
