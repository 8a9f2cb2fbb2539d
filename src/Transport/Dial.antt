-- ===== src/Transport/Dial.antt =====
-- internal/transport/transport.go and dial.go: the configuration and what `Dial` makes of it.
pub mod Sent
pub mod Requests
pub mod Streams
use advanced_imessage_go.Prelude.{
  ℕ, ◌*◌, ◌^◌, List, [], ◌∷◌, ◌++◌, Bool, Option, none, some, if◌then◌else◌,
}
use advanced_imessage_go.Prelude.Text.{GoString, bytes}
use advanced_imessage_go.Prelude.Int.{ℤ, pos, ltb_ℤ}
use advanced_imessage_go.Transport.Runtime.{UnaryFunc, StreamingFunc, Interceptor, Surroundings}
use advanced_imessage_go.Transport.Interceptors.{
  RetryConfig, unary_interceptor, auth_interceptor, timeout_unary, idempotency_unary, retry_unary,
}

abbrev pub max_message_bytes : ℕ
max_message_bytes = 100 * 2 ^ 20

-- Nanoseconds.
abbrev pub second : ℕ
second = 1000000000

abbrev pub keepalive_time : ℤ
keepalive_time = pos (30 * second)

abbrev pub keepalive_timeout : ℤ
keepalive_timeout = pos (20 * second)

-- The settings of the HTTP/2 client that `newHTTP2Client` builds; with `allow_http` its dialer
-- opens plain TCP connections.
pub record Http2Settings : Type 0 where
  pub read_idle_timeout : ℤ
  pub ping_timeout : ℤ
  pub allow_http : Bool

-- A supplied client `C`, or a new one.
pub data HttpClient (C : Type 0) : Type 0 where
  supplied : C → HttpClient C
  http2 : Http2Settings → HttpClient C

-- `Config`; its `Token` is the operation `token` of the surroundings.
pub record Config (C : Type 0) : Type 0 where
  pub address : GoString
  pub insecure : Bool
  pub timeout : ℤ
  pub retry_enabled : Bool
  pub retry : RetryConfig
  pub auto_idempotency : Bool
  pub http_client : Option C

unfoldable pub new_http2_settings : Bool → Http2Settings
new_http2_settings insecure = record {
  read_idle_timeout = keepalive_time;
  ping_timeout = keepalive_timeout;
  allow_http = insecure;
}

abbrev pub client_or : {C : Type 0} → Option C → HttpClient C → HttpClient C
client_or none c = c
client_or (some c) _ = supplied c

abbrev pub optional {ℓ} : {A : Type ℓ} → Bool → A → List A
optional b a = if b then a ∷ [] else []

-- The results of `Dial`. The options also select the gRPC protocol.
pub record Dialed (C S M R : Type 0) : Type 0 where
  pub http_client : HttpClient C
  pub base_url : GoString
  pub interceptors : List (Interceptor S M R)
  pub read_max_bytes : ℕ
  pub send_max_bytes : ℕ

module _ {C S M R : Type 0} (env : Surroundings S) where
  -- Outer to inner: auth, timeout, idempotency, retry.
  unfoldable pub interceptors_of : Config C → List (Interceptor S M R)
  interceptors_of cfg =
      (((auth_interceptor env ∷ [])
          ++ optional (ltb_ℤ (pos 0) cfg.timeout)
              (unary_interceptor (timeout_unary env cfg.timeout)))
        ++ optional cfg.auto_idempotency (unary_interceptor (idempotency_unary env)))
      ++ optional cfg.retry_enabled (unary_interceptor (retry_unary env cfg.retry))

  unfoldable pub dial : Config C → Dialed C S M R
  unfolding interceptors_of new_http2_settings
  dial cfg = record {
    http_client = client_or cfg.http_client (http2 (new_http2_settings cfg.insecure));
    base_url =
        (if cfg.insecure then bytes "http" else bytes "https") ++ (bytes "://" ++ cfg.address);
    interceptors = interceptors_of cfg;
    read_max_bytes = max_message_bytes;
    send_max_bytes = max_message_bytes;
  }

module _ {S M R : Type 0} where
  -- The first interceptor is the outermost, as the Connect runtime documents of
  -- `WithInterceptors`.
  abbrev pub nest_unary : List (Interceptor S M R) → UnaryFunc S M R → UnaryFunc S M R
  nest_unary [] next = next
  nest_unary (i ∷ is) next = i.wrap_unary (nest_unary is next)

  abbrev pub nest_streaming : List (Interceptor S M R) → StreamingFunc S → StreamingFunc S
  nest_streaming [] next = next
  nest_streaming (i ∷ is) next = i.wrap_streaming_client (nest_streaming is next)
