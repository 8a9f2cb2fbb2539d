-- ===== src/Errors/Chain.antt =====
-- Go errors as the chains that `errors.Is` and `errors.As` walk, and errors.go: `Error` with its
-- methods `Error`, `Unwrap` and `Is`.
use advanced_imessage_go.Prelude.{
  [], ◌∷◌, ◌++◌, Bool, true, false, ◌||◌, Option, none, some, ◌==◌, if◌then◌else◌,
}
use advanced_imessage_go.Prelude.Text.{GoString, bytes, str_eq, is_empty}
use advanced_imessage_go.Prelude.Header.{Header, Dict}
use advanced_imessage_go.Errors.Codes.{Code, ConnectCode, class_of, class_number}

-- The exported fields of `Error`; its `cause` is the argument of `imessage` below. A context of
-- `none` is the nil map.
pub record Error : Type 0 where
  pub code : Code
  pub connect_code : ConnectCode
  pub message : GoString
  pub retryable : Bool
  pub context : Option (Dict GoString)

-- A value of the interface `error`. `connect_error` is `*connect.Error` with what its methods
-- `Code`, `Message`, `Meta` and `Unwrap` return; `wrapped` and `joined` are other errors with an
-- `Unwrap` method, `opaque` is one without.
pub data GoError : Type 0 where
  nil : GoError
  imessage : Error → GoError → GoError
  connect_error : ConnectCode → GoString → Header → GoError → GoError
  deadline_exceeded : GoError
  canceled : GoError
  opaque : GoString → GoError
  wrapped : GoString → GoError → GoError
  joined : GoError → GoError → GoError

-- The texts of the Connect runtime: `Code.String` and `(*connect.Error).Error`.
pub record ConnectText : Type 0 where
  pub code_text : ConnectCode → GoString
  pub error_text : ConnectCode → GoString → GoString

module _ ⦃ct : ConnectText⦄ where
  -- The method `(*Error).Error`.
  unfoldable pub error_string : Error → GoString
  error_string e =
      bytes "imessage: "
      ++ ((if is_empty e.code then [] else e.code ++ bytes ": ")
          ++ (if is_empty e.message then ct.code_text e.connect_code else e.message))

  -- `err.Error()`; nil has none.
  unfoldable pub text_of : GoError → GoString
  unfolding error_string
  text_of nil = []
  text_of (imessage e _) = error_string e
  text_of (connect_error c m _ _) = ct.error_text c m
  text_of deadline_exceeded = bytes "context deadline exceeded"
  text_of canceled = bytes "context canceled"
  text_of (opaque m) = m
  text_of (wrapped m _) = m
  text_of (joined a b) = text_of a ++ (10 ∷ text_of b)

-- The method `(*Error).Is` with a target that is an `*Error`; any other target gives false.
unfoldable pub error_is : Error → Error → Bool
error_is e t =
    if is_empty t.code
    then class_number (class_of e.connect_code) == class_number (class_of t.connect_code)
    else str_eq e.code t.code

abbrev pub or_else {ℓ} : {A : Type ℓ} → Option A → Option A → Option A
or_else none o = o
or_else (some a) _ = some a

-- `errors.Is(err, target)` with an `*Error` as the target. That a pointer is itself adds nothing:
-- `error_is` is reflexive.
unfoldable pub errors_is : GoError → Error → Bool
errors_is nil t = false
errors_is (imessage e cause) t = error_is e t || errors_is cause t
errors_is (connect_error _ _ _ cause) t = errors_is cause t
errors_is deadline_exceeded t = false
errors_is canceled t = false
errors_is (opaque _) t = false
errors_is (wrapped _ cause) t = errors_is cause t
errors_is (joined a b) t = errors_is a t || errors_is b t

-- `errors.Is(err, context.DeadlineExceeded)`
unfoldable pub is_deadline_exceeded : GoError → Bool
is_deadline_exceeded deadline_exceeded = true
is_deadline_exceeded (imessage _ cause) = is_deadline_exceeded cause
is_deadline_exceeded (connect_error _ _ _ cause) = is_deadline_exceeded cause
is_deadline_exceeded (wrapped _ cause) = is_deadline_exceeded cause
is_deadline_exceeded (joined a b) = is_deadline_exceeded a || is_deadline_exceeded b
is_deadline_exceeded nil = false
is_deadline_exceeded canceled = false
is_deadline_exceeded (opaque _) = false

-- `errors.Is(err, context.Canceled)`
unfoldable pub is_canceled : GoError → Bool
is_canceled canceled = true
is_canceled (imessage _ cause) = is_canceled cause
is_canceled (connect_error _ _ _ cause) = is_canceled cause
is_canceled (wrapped _ cause) = is_canceled cause
is_canceled (joined a b) = is_canceled a || is_canceled b
is_canceled nil = false
is_canceled deadline_exceeded = false
is_canceled (opaque _) = false

-- `errors.As(err, &e)` for `e *Error`: the first in the chain, with its cause.
unfoldable pub as_imessage : GoError → Option (Error × GoError)
as_imessage nil = none
as_imessage (imessage e cause) = some (e, cause)
as_imessage (connect_error _ _ _ cause) = as_imessage cause
as_imessage deadline_exceeded = none
as_imessage canceled = none
as_imessage (opaque _) = none
as_imessage (wrapped _ cause) = as_imessage cause
as_imessage (joined a b) = or_else (as_imessage a) (as_imessage b)

-- What the client reads of a `*connect.Error`.
pub record ConnectError : Type 0 where
  pub code : ConnectCode
  pub message : GoString
  pub meta : Header

-- `errors.As(err, &ce)` for `ce *connect.Error`.
unfoldable pub as_connect : GoError → Option ConnectError
as_connect nil = none
as_connect (imessage _ cause) = as_connect cause
as_connect (connect_error c m h _) = some (record { code = c; message = m; meta = h })
as_connect deadline_exceeded = none
as_connect canceled = none
as_connect (opaque _) = none
as_connect (wrapped _ cause) = as_connect cause
as_connect (joined a b) = or_else (as_connect a) (as_connect b)
