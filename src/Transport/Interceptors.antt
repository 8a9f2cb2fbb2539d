-- ===== src/Transport/Interceptors.antt =====
-- internal/transport/interceptor.go. An interceptor passes a changed request on as a value; the
-- code writes to the header of the one request object, which the later interceptors then read.
use advanced_imessage_go.Prelude.{
  ℕ, zero, suc, ◌+◌, ◌-◌, ◌*◌, ◌^◌, List, [], ◌∷◌, ◌++◌, Bool, true, false, not, ◌&&◌, ◌||◌, Option,
  none, some, is_some, ◌==◌, if◌then◌else◌,
}
use advanced_imessage_go.Prelude.Text.{GoString, bytes, str_eq, is_empty}
use advanced_imessage_go.Prelude.Int.{ℤ, pos, negsuc, pos_part, ltb_ℤ, leb_ℤ, int64}
use advanced_imessage_go.Prelude.Header.{header_get, header_set}
use advanced_imessage_go.Errors.Codes.{unauthenticated}
use advanced_imessage_go.Errors.Chain.{GoError, ConnectError, as_connect}
use advanced_imessage_go.Transport.Runtime.{
  Action, ◌>>=◌, pure, Outcome, ok, fail, Context, Request, UnaryFunc, StreamingFunc, Interceptor,
  Surroundings,
}

abbrev pub authorization_header : GoString
authorization_header = bytes "Authorization"

abbrev pub idempotency_header : GoString
idempotency_header = bytes "X-Idempotency-Key"

abbrev pub retryable_header : GoString
retryable_header = bytes "X-Retryable"

pub record RetryConfig : Type 0 where
  pub max_attempts : ℤ
  pub initial_delay : ℤ
  pub max_delay : ℤ

abbrev service : GoString → GoString → GoString
service name method = bytes "/photon.imessage.v1." ++ (name ++ (47 ∷ method))

abbrev pub mutating_procedures : List GoString
mutating_procedures =
    service (bytes "MessageService") (bytes "SendTextMessage")
    ∷ service (bytes "MessageService") (bytes "SendAttachmentMessage")
    ∷ service (bytes "MessageService") (bytes "SendMultipartMessage")
    ∷ service (bytes "MessageService") (bytes "SendMiniAppMessage")
    ∷ service (bytes "MessageService") (bytes "SendCustomizedMiniAppMessage")
    ∷ service (bytes "MessageService") (bytes "EditMessage")
    ∷ service (bytes "MessageService") (bytes "UnsendMessage")
    ∷ service (bytes "MessageService") (bytes "SetReaction")
    ∷ service (bytes "MessageService") (bytes "PlaceSticker")
    ∷ service (bytes "MessageService") (bytes "NotifySilencedMessage")
    ∷ service (bytes "ChatService") (bytes "CreateChat")
    ∷ service (bytes "ChatService") (bytes "MarkChatRead")
    ∷ service (bytes "ChatService") (bytes "SetBackground")
    ∷ service (bytes "ChatService") (bytes "RemoveBackground")
    ∷ service (bytes "ChatService") (bytes "ShareContactInfo")
    ∷ service (bytes "ChatService") (bytes "SetTyping")
    ∷ service (bytes "GroupService") (bytes "SetDisplayName")
    ∷ service (bytes "GroupService") (bytes "AddParticipants")
    ∷ service (bytes "GroupService") (bytes "RemoveParticipants")
    ∷ service (bytes "GroupService") (bytes "LeaveGroup")
    ∷ service (bytes "GroupService") (bytes "SetIcon")
    ∷ service (bytes "GroupService") (bytes "RemoveIcon")
    ∷ service (bytes "AttachmentService") (bytes "UploadAttachment")
    ∷ service (bytes "PollService") (bytes "CreatePoll")
    ∷ service (bytes "PollService") (bytes "VotePoll")
    ∷ service (bytes "PollService") (bytes "UnvotePoll")
    ∷ service (bytes "PollService") (bytes "AddPollOption")
    ∷ service (bytes "LocationService") (bytes "RequestFriendLocationSharing")
    ∷ []

unfoldable pub is_member : List GoString → GoString → Bool
is_member [] p = false
is_member (q ∷ qs) p = str_eq q p || is_member qs p

-- `_, ok := mutatingProcedures[procedure]`
unfoldable pub is_mutating : GoString → Bool
unfolding is_member
is_mutating p = is_member mutating_procedures p

abbrev retryable_meta : Option ConnectError → Bool
retryable_meta none = false
retryable_meta (some ce) = str_eq (header_get ce.meta retryable_header) (bytes "true")

unfoldable pub server_retryable : GoError → Bool
server_retryable err = retryable_meta (as_connect err)

-- `d << k` before the result is cut to 64 bits.
abbrev pub shift_left : ℤ → ℕ → ℤ
shift_left (pos n) k = pos (n * 2 ^ k)
shift_left (negsuc n) k = negsuc (suc n * 2 ^ k - 1)

-- The delay of `backoff` before the jitter.
unfoldable pub backoff_cap : RetryConfig → ℕ → ℤ
backoff_cap cfg attempt =
    let d = int64 (shift_left cfg.initial_delay attempt) in
    if leb_ℤ d (pos 0) || ltb_ℤ cfg.max_delay d then cfg.max_delay else d

-- `if cfg.MaxAttempts < 1 { cfg.MaxAttempts = 1 }`
unfoldable pub attempts_of : RetryConfig → ℕ
attempts_of cfg = if ltb_ℤ cfg.max_attempts (pos 1) then 1 else pos_part cfg.max_attempts

abbrev pub set_header : {M : Type 0} → Request M → GoString → GoString → Request M
set_header req k v = record req { header = header_set req.header k v }

abbrev pub bearer : GoString → GoString
bearer tok = bytes "Bearer " ++ tok

module _ {S : Type 0} (env : Surroundings S) where
  unfoldable pub backoff : RetryConfig → ℕ → Action S ℤ
  backoff cfg attempt = env.jitter (backoff_cap cfg attempt)

  -- A token error cannot be returned here: the stream goes out without the header.
  unfoldable pub auth_streaming : StreamingFunc S → StreamingFunc S
  auth_streaming next ctx = do
    conn ← next ctx
    found ← env.token ctx
    elim found [
      | fail _ ↦ pure conn
      | ok tok ↦ pure (record conn {
        request_header = header_set conn.request_header authorization_header (bearer tok);
      })
    ]

-- An interceptor that leaves streams alone.
abbrev pub unary_interceptor :
    {S M R : Type 0} → (UnaryFunc S M R → UnaryFunc S M R) → Interceptor S M R
unary_interceptor f = record { wrap_unary = f; wrap_streaming_client = λ next. next }

module _ {S M R : Type 0} (env : Surroundings S) where
  unfoldable pub auth_unary : UnaryFunc S M R → UnaryFunc S M R
  auth_unary next ctx req = do
    found ← env.token ctx
    elim found [
      | fail err ↦ pure (fail (env.new_error unauthenticated err))
      | ok tok ↦ next ctx (set_header req authorization_header (bearer tok))
    ]

  abbrev pub auth_interceptor : Interceptor S M R
  auth_interceptor = record { wrap_unary = auth_unary; wrap_streaming_client = auth_streaming env }

  unfoldable pub timeout_unary : ℤ → UnaryFunc S M R → UnaryFunc S M R
  timeout_unary d next ctx req =
      if is_some ctx.deadline
      then next ctx req
      else do limited ← env.with_timeout ctx d; next limited req

  unfoldable pub idempotency_unary : UnaryFunc S M R → UnaryFunc S M R
  idempotency_unary next ctx req =
      if is_mutating req.procedure && is_empty (header_get req.header idempotency_header)
      then (do key ← env.new_key; next ctx (set_header req idempotency_header key))
      else next ctx req

  -- The loop of `retryInterceptor`, by the rounds that are left. `bound` is `cfg.MaxAttempts`.
  unfoldable pub retry_loop :
      RetryConfig
      → ℕ
      → UnaryFunc S M R
      → Context
      → Request M
      → (left attempt : ℕ) → GoError
      → Action S (Outcome R)
  unfolding backoff
  retry_loop cfg bound next ctx req zero attempt last s = (fail last, s)
  retry_loop cfg bound next ctx req (suc left) attempt last s =
      let (reply, s₁) = next ctx req s in
      elim reply [
        | ok resp ↦ (ok resp, s₁)
        | fail err ↦ elim (attempt == bound - 1 || not (server_retryable err)) [
          | true ↦ (fail err, s₁)
          | false ↦
              let (d, s₂) = backoff env cfg attempt s₁ in
              let (fired, s₃) = env.wait ctx d s₂ in
              elim fired [
                | true ↦ retry_loop cfg bound next ctx req left (attempt + 1) err s₃
                | false ↦ (fail (env.context_error ctx s₃), s₃)
              ]
        ]
      ]

  -- The loop starts with no error; with at least one attempt that start is never returned.
  unfoldable pub retry_unary : RetryConfig → UnaryFunc S M R → UnaryFunc S M R
  unfolding retry_loop attempts_of
  retry_unary cfg next ctx req =
      retry_loop cfg (attempts_of cfg) next ctx req (attempts_of cfg) 0 GoError.nil
