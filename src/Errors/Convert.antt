-- ===== src/Errors/Convert.antt =====
-- errors.go: `asError`, the metadata that it reads, the sentinels and the `Is*` helpers.
use advanced_imessage_go.Prelude.{List, [], ◌∷◌, Bool, false, Option, none, some, if◌then◌else◌}
use advanced_imessage_go.Prelude.Text.{GoString, bytes, str_eq, is_empty, to_lower, strip_prefix}
use advanced_imessage_go.Prelude.Header.{Header, Dict, insert, header_get}
use advanced_imessage_go.Errors.Codes.{
  Code, ConnectCode, unauthenticated, not_found, resource_exhausted, invalid_argument, unavailable,
  code_timeout, code_network_error, default_code_for,
}
use advanced_imessage_go.Errors.Codes
use advanced_imessage_go.Errors.Chain.{
  Error, GoError, nil, imessage, ConnectText, text_of, errors_is, is_deadline_exceeded, is_canceled,
  as_imessage, ConnectError, as_connect,
}

-- The category sentinels: only the status code is set.
abbrev pub sentinel : ConnectCode → Error
sentinel c = record { code = []; connect_code = c; message = []; retryable = false; context = none }

abbrev pub err_authentication : Error
err_authentication = sentinel unauthenticated

abbrev pub err_not_found : Error
err_not_found = sentinel not_found

abbrev pub err_rate_limited : Error
err_rate_limited = sentinel resource_exhausted

abbrev pub err_validation : Error
err_validation = sentinel invalid_argument

abbrev pub err_connection : Error
err_connection = sentinel unavailable

unfoldable pub is_authentication : GoError → Bool
is_authentication err = errors_is err err_authentication

unfoldable pub is_not_found : GoError → Bool
is_not_found err = errors_is err err_not_found

unfoldable pub is_rate_limited : GoError → Bool
is_rate_limited err = errors_is err err_rate_limited

unfoldable pub is_validation : GoError → Bool
is_validation err = errors_is err err_validation

unfoldable pub is_connection : GoError → Bool
is_connection err = errors_is err err_connection

abbrev retryable_of : Option (Error × GoError) → Bool
retryable_of none = false
retryable_of (some (e, _)) = e.retryable

unfoldable pub is_retryable : GoError → Bool
is_retryable err = retryable_of (as_imessage err)

abbrev code_of_found : Option (Error × GoError) → Code
code_of_found none = []
code_of_found (some (e, _)) = e.code

unfoldable pub code_of : GoError → Code
code_of err = code_of_found (as_imessage err)

unfoldable pub first_meta : Header → GoString → GoString
first_meta h key = header_get h key

abbrev pub context_prefix : GoString
context_prefix = bytes "error-context-"

-- `if out == nil { out = make(…) }; out[name] = value`
abbrev put : GoString → GoString → Option (Dict GoString) → Option (Dict GoString)
put name value none = some ((name, value) ∷ [])
put name value (some m) = some (insert name value m)

-- One round of the loop: `continue` without the prefix or without a value.
abbrev pub add_context :
    Option GoString → List GoString → Option (Dict GoString) → Option (Dict GoString)
add_context (some name) (v ∷ _) out = put name v out
add_context _ _ out = out

unfoldable pub context_loop : Header → Option (Dict GoString) → Option (Dict GoString)
context_loop [] out = out
context_loop ((k, vs) ∷ h) out =
    context_loop h (add_context (strip_prefix context_prefix (to_lower k)) vs out)

-- The map is walked in the order of the list; Go's order is arbitrary.
unfoldable pub context_from_meta : Header → Option (Dict GoString)
unfolding context_loop
context_from_meta h = context_loop h none

-- The code that the server sent, or the default of the status code.
unfoldable pub code_from_meta : ConnectError → Code
code_from_meta ce =
    let code = first_meta ce.meta (bytes "error-code") in
    if is_empty code then default_code_for ce.code else code

unfoldable pub from_connect : ConnectError → Error
from_connect ce = record {
  code = code_from_meta ce;
  connect_code = ce.code;
  message = ce.message;
  retryable = str_eq (first_meta ce.meta (bytes "x-retryable")) (bytes "true");
  context = context_from_meta ce.meta;
}

module _ ⦃ct : ConnectText⦄ where
  -- The `Error` made of a raw context error.
  abbrev pub context_error : Code → ConnectCode → GoError → Error
  context_error code c err = record {
    code = code;
    connect_code = c;
    message = text_of err;
    retryable = false;
    context = none;
  }

  unfoldable pub from_context : GoError → GoError
  from_context err =
      if is_deadline_exceeded err
      then imessage (context_error code_timeout Codes.deadline_exceeded err) err
      else if is_canceled err
      then imessage (context_error code_network_error Codes.canceled err) err
      else err

  abbrev pub from_parts : Option (Error × GoError) → Option ConnectError → GoError → GoError
  from_parts (some (e, cause)) _ err = imessage e cause
  from_parts none (some ce) err = imessage (from_connect ce) err
  from_parts none none err = from_context err

  -- On nil, `as_imessage` and `as_connect` find nothing and the value is returned as it is.
  unfoldable pub as_error : GoError → GoError
  unfolding from_context
  as_error nil = nil
  as_error err = from_parts (as_imessage err) (as_connect err) err
