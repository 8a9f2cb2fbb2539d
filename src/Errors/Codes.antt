-- ===== src/Errors/Codes.antt =====
-- errors.go: the canonical codes, the status classes, and the codes of the Connect runtime that
-- the client names.
use advanced_imessage_go.Prelude.{ℕ, []}
use advanced_imessage_go.Prelude.Text.{GoString, bytes}

abbrev pub Code : Type 0
Code = GoString

abbrev pub code_unauthenticated : Code
code_unauthenticated = bytes "unauthenticated"

abbrev pub code_token_expired : Code
code_token_expired = bytes "tokenExpired"

abbrev pub code_token_blocked : Code
code_token_blocked = bytes "tokenBlocked"

abbrev pub code_unauthorized : Code
code_unauthorized = bytes "unauthorized"

abbrev pub code_daily_limit_exceeded : Code
code_daily_limit_exceeded = bytes "dailyLimitExceeded"

abbrev pub code_recipient_limit_exceeded : Code
code_recipient_limit_exceeded = bytes "recipientLimitExceeded"

abbrev pub code_upload_rate_exceeded : Code
code_upload_rate_exceeded = bytes "uploadRateExceeded"

abbrev pub code_content_duplicate_exceeded : Code
code_content_duplicate_exceeded = bytes "contentDuplicateExceeded"

abbrev pub code_recipient_cooling_down : Code
code_recipient_cooling_down = bytes "recipientCoolingDown"

abbrev pub code_recipient_locked : Code
code_recipient_locked = bytes "recipientLocked"

abbrev pub code_send_receive_ratio_exceeded : Code
code_send_receive_ratio_exceeded = bytes "sendReceiveRatioExceeded"

abbrev pub code_duplicate_message : Code
code_duplicate_message = bytes "duplicateMessage"

abbrev pub code_chat_not_found : Code
code_chat_not_found = bytes "chatNotFound"

abbrev pub code_message_not_found : Code
code_message_not_found = bytes "messageNotFound"

abbrev pub code_attachment_not_found : Code
code_attachment_not_found = bytes "attachmentNotFound"

abbrev pub code_address_not_found : Code
code_address_not_found = bytes "addressNotFound"

abbrev pub code_shared_friend_location_not_found : Code
code_shared_friend_location_not_found = bytes "sharedFriendLocationNotFound"

abbrev pub code_group_icon_not_found : Code
code_group_icon_not_found = bytes "groupIconNotFound"

abbrev pub code_poll_not_found : Code
code_poll_not_found = bytes "pollNotFound"

abbrev pub code_invalid_argument : Code
code_invalid_argument = bytes "invalidArgument"

abbrev pub code_precondition_failed : Code
code_precondition_failed = bytes "preconditionFailed"

abbrev pub code_operation_not_supported : Code
code_operation_not_supported = bytes "operationNotSupported"

abbrev pub code_attachment_not_ready : Code
code_attachment_not_ready = bytes "attachmentNotReady"

abbrev pub code_private_api_unavailable : Code
code_private_api_unavailable = bytes "privateApiUnavailable"

abbrev pub code_service_unavailable : Code
code_service_unavailable = bytes "serviceUnavailable"

abbrev pub code_timeout : Code
code_timeout = bytes "timeout"

abbrev pub code_internal_error : Code
code_internal_error = bytes "internalError"

abbrev pub code_database_error : Code
code_database_error = bytes "databaseError"

abbrev pub code_network_error : Code
code_network_error = bytes "networkError"

-- `connect.Code`; `other` is a number that no constant of the runtime names, such as the zero
-- value.
pub data ConnectCode : Type 0 where
  canceled unknown invalid_argument deadline_exceeded not_found already_exists : ConnectCode
  permission_denied resource_exhausted failed_precondition aborted out_of_range : ConnectCode
  unimplemented internal unavailable data_loss unauthenticated : ConnectCode
  other : ℕ → ConnectCode

pub data ErrClass : Type 0 where
  class_internal class_auth class_not_found class_rate_limit : ErrClass
  class_validation class_connection : ErrClass

unfoldable pub class_of : ConnectCode → ErrClass
class_of unauthenticated = class_auth
class_of permission_denied = class_auth
class_of not_found = class_not_found
class_of resource_exhausted = class_rate_limit
class_of invalid_argument = class_validation
class_of failed_precondition = class_validation
class_of unavailable = class_connection
class_of deadline_exceeded = class_connection
class_of canceled = class_connection
class_of _ = class_internal

-- `==` on classes.
abbrev pub class_number : ErrClass → ℕ
class_number class_internal = 0
class_number class_auth = 1
class_number class_not_found = 2
class_number class_rate_limit = 3
class_number class_validation = 4
class_number class_connection = 5

unfoldable pub default_code_for : ConnectCode → Code
default_code_for unauthenticated = code_unauthenticated
default_code_for permission_denied = code_unauthorized
default_code_for not_found = []
default_code_for resource_exhausted = []
default_code_for invalid_argument = code_invalid_argument
default_code_for failed_precondition = code_precondition_failed
default_code_for unimplemented = code_operation_not_supported
default_code_for unavailable = code_service_unavailable
default_code_for deadline_exceeded = code_timeout
default_code_for _ = code_internal_error
