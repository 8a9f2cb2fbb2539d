-- ===== src/Examples/Transports.antt =====
-- Calls through the interceptors.
use advanced_imessage_go.Prelude.{
  ℕ, suc, List, [], ◌∷◌, ◌++◌, map, replicate, Bool, true, false, none, some, ◌≡◌, ◌⊎◌, inl, refl,
  arith,
}
use advanced_imessage_go.Prelude.Text.{GoString, bytes, str_eq}
use advanced_imessage_go.Prelude.Int.{ℤ, pos, ◌≤ℤ◌}
use advanced_imessage_go.Prelude.Header.{header_get, canonical_key, lookup}
use advanced_imessage_go.Errors.Codes
use advanced_imessage_go.Errors.Codes.{unauthenticated}
use advanced_imessage_go.Errors.Chain.{GoError, nil, connect_error, canceled, as_connect}
use advanced_imessage_go.Transport.Runtime.{
  Outcome, ok, fail, Context, Request, StreamingFunc, Surroundings,
}
use advanced_imessage_go.Transport.Interceptors.{
  authorization_header, idempotency_header, RetryConfig, server_retryable, backoff, attempts_of,
  retry_unary,
}
use advanced_imessage_go.Transport.Backoff.{backoff_bounds}
use advanced_imessage_go.Transport.Retry.{
  Server, serve, lift_surroundings, scripted, retry_unary_result,
}
use advanced_imessage_go.Transport.Retry.Outcomes.{EndsWithReply, EndsInDelay, retry_unary-Ends}
use advanced_imessage_go.Transport.Retry.Repeats.{SentBetween}
use advanced_imessage_go.Transport.Dial.{Config, interceptors_of, nest_streaming}
use advanced_imessage_go.Transport.Dial.Sent.{IsSent, most_sent}
use advanced_imessage_go.Transport.Dial.Streams.{IsAuthorized, stream-IsAuthorized}
use advanced_imessage_go.Transport.Dial.Requests.{call, call_requests}

abbrev surroundings : Outcome GoString → Bool → Surroundings ℕ
surroundings token fires = record {
  token = λ ctx n. (token, n);
  new_key = λ n. (bytes "key", suc n);
  jitter = λ d n. (d, n);
  wait = λ ctx d n. (fires, n);
  context_error = λ ctx n. canceled;
  with_timeout = λ ctx d n. (record ctx { deadline = some d }, n);
  new_error = λ c e. connect_error c [] [] e;
}

abbrev calm : Surroundings ℕ
calm = surroundings (ok (bytes "secret")) true

abbrev hurried : Surroundings ℕ
hurried = surroundings (ok (bytes "secret")) false

abbrev retries : RetryConfig
retries = record { max_attempts = pos 3; initial_delay = pos 200; max_delay = pos 5000 }

abbrev config : Config ℕ
config = record {
  address = bytes "host:443";
  insecure = false;
  timeout = pos 1000;
  retry_enabled = true;
  retry = retries;
  auto_idempotency = true;
  http_client = none;
}

abbrev context : Context
context = record { deadline = none; scope = 0 }

abbrev send : Request ℕ
send = record {
  procedure = bytes "/photon.imessage.v1.MessageService/SendTextMessage";
  header = [];
  message = 42;
}

abbrev busy : GoError
busy =
    connect_error Codes.unavailable (bytes "busy") ((bytes "X-Retryable", bytes "true" ∷ []) ∷ [])
      nil

busy_retryable : server_retryable busy ≡ true
unfolding server_retryable as_connect header_get canonical_key lookup str_eq
busy_retryable = refl

abbrev server : List (Outcome ℕ) → Server ℕ ℕ ℕ
server replies = record { replies = replies; seen = []; rest = 0 }

three_attempts : attempts_of retries ≡ 3
unfolding attempts_of
three_attempts = refl

abbrev connect_stream : StreamingFunc ℕ
connect_stream ctx n = (record { request_header = [] }, n)

other_header :
    str_eq (canonical_key authorization_header) (canonical_key idempotency_header) ≡ false
unfolding canonical_key str_eq
other_header = refl

stream-IsAuthorized_example :
    let out =
      nest_streaming (interceptors_of {M = ℕ} {R = ℕ} calm config) connect_stream context 0 in
    IsAuthorized (ok (bytes "secret")) idempotency_header (record { request_header = [] }) out.0
    × (out.1 ≡ 0)
stream-IsAuthorized_example =
    stream-IsAuthorized ℕ ℕ calm config connect_stream context 0 idempotency_header other_header

call_requests_example :
    (t : ℕ) × (sent : Request ℕ) × IsSent config send (bytes "secret") (calm.new_key t).0 sent
    × SentBetween
        (server (fail busy ∷ ok 5 ∷ []))
        (call calm config context send (server (fail busy ∷ ok 5 ∷ []))).1
        sent
        (most_sent config)
call_requests_example =
    call_requests calm config context send (server (fail busy ∷ ok 5 ∷ [])) (bytes "secret") refl

retry_unary_result_example :
    (t' : ℕ) × (retry_unary {R = ℕ}
        (lift_surroundings calm)
        retries
        serve
        context
        send
        (scripted calm retries context send (map fail (busy ∷ []) ++ ok 5 ∷ []) [] 0)
      ≡ (ok 5, scripted calm retries context send [] ([] ++ replicate 2 send) t'))
retry_unary_result_example =
    retry_unary_result calm retries context send (busy ∷ []) (ok 5) [] [] 0 (λ d t. refl)
      (busy_retryable, tt) (omega (arith, three_attempts)) (inl tt)

abbrev server_replies : List (Outcome ℕ)
server_replies = fail busy ∷ ok 5 ∷ ok 6 ∷ []

retry_unary-Ends_example :
    let out =
      retry_unary
        (lift_surroundings hurried)
        retries
        serve
        context
        send
        (scripted hurried retries context send server_replies [] 0) in
    EndsWithReply hurried retries context send (attempts_of retries) server_replies [] out
    ⊎ EndsInDelay hurried retries context send (attempts_of retries) server_replies [] out
retry_unary-Ends_example =
    retry_unary-Ends hurried retries context send server_replies [] 0
      (omega (arith, three_attempts))

calm_jitter :
    (d : ℤ) (s : ℕ) → pos 0 ≤ℤ d → (pos 0 ≤ℤ (calm.jitter d s).0) × ((calm.jitter d s).0 ≤ℤ d)
calm_jitter d s h = (h, omega arith)

backoff_bounds_example :
    (pos 0 ≤ℤ (backoff calm retries 3 0).0) × ((backoff calm retries 3 0).0 ≤ℤ pos 5000)
backoff_bounds_example = backoff_bounds calm calm_jitter retries 3 0 (omega arith)
