-- ===== src/Client.antt =====
-- options.go, token.go and client.go: the options, the token sources, and `New`.
pub mod Options
pub mod Calls
use advanced_imessage_go.Prelude.{
  ℕ, List, [], ◌∷◌, Bool, true, false, Option, none, some, ◌==◌, if◌then◌else◌,
}
use advanced_imessage_go.Prelude.Text.{GoString, bytes, is_empty}
use advanced_imessage_go.Prelude.Int.{ℤ, pos}
use advanced_imessage_go.Errors.Codes
use advanced_imessage_go.Errors.Codes.{code_invalid_argument}
use advanced_imessage_go.Errors.Chain.{GoError, nil, imessage}
use advanced_imessage_go.Transport.Runtime.{Action, pure, Outcome, ok, fail, Context, Surroundings}
use advanced_imessage_go.Transport.Interceptors.{RetryConfig}
use advanced_imessage_go.Transport.Dial.{Config, Dialed, HttpClient, dial}

-- Nanoseconds: 200 ms and 5 s.
abbrev pub default_max_attempts : ℤ
default_max_attempts = pos 4

abbrev pub default_initial_delay : ℤ
default_initial_delay = pos 200000000

abbrev pub default_max_delay : ℤ
default_max_delay = pos 5000000000

-- `retryConfig` has the fields of `transport.RetryConfig`, which it is converted to.
abbrev pub default_retry : RetryConfig
default_retry = record {
  max_attempts = default_max_attempts;
  initial_delay = default_initial_delay;
  max_delay = default_max_delay;
}

-- `config`, over the type of HTTP clients; nil is `none`.
pub record ClientConfig (C : Type 0) : Type 0 where
  pub insecure : Bool
  pub timeout : ℤ
  pub retry_enabled : Bool
  pub retry : RetryConfig
  pub auto_idempotency : Bool
  pub http_client : Option C

abbrev pub default_config : {C : Type 0} → ClientConfig C
default_config = record {
  insecure = false;
  timeout = pos 0;
  retry_enabled = false;
  retry = default_retry;
  auto_idempotency = false;
  http_client = none;
}

-- The values that the exported functions build: `RetryOption` and `Option`.
pub data RetryOption : Type 0 where
  with_max_attempts with_initial_delay with_max_delay : ℤ → RetryOption

pub data ClientOption (C : Type 0) : Type 0 where
  without_tls : ClientOption C
  with_timeout : ℤ → ClientOption C
  with_retry : List RetryOption → ClientOption C
  with_auto_idempotency : ClientOption C
  with_http_client : Option C → ClientOption C

unfoldable pub apply_retry : RetryOption → RetryConfig → RetryConfig
apply_retry (with_max_attempts n) r = record r { max_attempts = n }
apply_retry (with_initial_delay d) r = record r { initial_delay = d }
apply_retry (with_max_delay d) r = record r { max_delay = d }

-- `for _, o := range opts { o.applyRetry(&c.retry) }`
unfoldable pub apply_retries : List RetryOption → RetryConfig → RetryConfig
unfolding apply_retry
apply_retries [] r = r
apply_retries (o ∷ opts) r = apply_retries opts (apply_retry o r)

abbrev pub is_zero : ℤ → Bool
is_zero (pos n) = n == 0
is_zero _ = false

module _ {C : Type 0} where
  unfoldable pub apply : ClientOption C → ClientConfig C → ClientConfig C
  unfolding apply_retries
  apply without_tls c = record c { insecure = true }
  apply (with_timeout d) c = record c { timeout = d }
  apply (with_retry opts) c = record c {
    retry_enabled = true;
    retry = apply_retries opts (if is_zero c.retry.max_attempts then default_retry else c.retry);
  }
  apply with_auto_idempotency c = record c { auto_idempotency = true }
  apply (with_http_client hc) c = record c { http_client = hc }

  -- `for _, o := range opts { o.apply(&cfg) }`
  unfoldable pub apply_options : List (ClientOption C) → ClientConfig C → ClientConfig C
  unfolding apply
  apply_options [] c = c
  apply_options (o ∷ opts) c = apply_options opts (apply o c)

  -- The argument of `transport.Dial` in `New`.
  unfoldable pub transport_config : GoString → ClientConfig C → Config C
  transport_config address cfg = record {
    address = address;
    insecure = cfg.insecure;
    timeout = cfg.timeout;
    retry_enabled = cfg.retry_enabled;
    retry = cfg.retry;
    auto_idempotency = cfg.auto_idempotency;
    http_client = cfg.http_client;
  }

-- `TokenSource`, by the two kinds that the package has: `StaticToken` and `TokenFunc`.
pub data TokenSource (S : Type 0) : Type 0 where
  static_token : GoString → TokenSource S
  token_func : (Context → Action S (Outcome GoString)) → TokenSource S

-- The method `Token`.
unfoldable pub token : {S : Type 0} → TokenSource S → Context → Action S (Outcome GoString)
token (static_token tok) ctx = pure (ok tok)
token (token_func f) ctx = f ctx

-- `Client`: every resource client is built from the same HTTP client, base URL and options.
pub record Client (C S M R : Type 0) : Type 0 where
  pub transport : Dialed C S M R

pub data NewResult (A : Type 0) : Type 0 where
  created : A → NewResult A
  refused : GoError → NewResult A

abbrev pub invalid_argument : GoString → GoError
invalid_argument message =
    imessage
      (record {
        code = code_invalid_argument;
        connect_code = Codes.invalid_argument;
        message = message;
        retryable = false;
        context = none;
      })
      nil

-- The surroundings of the interceptors, with the token source of the client.
abbrev pub with_source : {S : Type 0} → Surroundings S → TokenSource S → Surroundings S
with_source env src = record env { token = token src }

module _ {C S M R : Type 0} (env : Surroundings S) where
  abbrev pub connect : GoString → TokenSource S → ClientConfig C → Client C S M R
  connect address src cfg = record {
    transport = dial (with_source env src) (transport_config address cfg);
  }

  -- The function `New`. A nil source is `none`.
  unfoldable pub new :
      GoString → Option (TokenSource S) → List (ClientOption C) → NewResult (Client C S M R)
  unfolding apply_options
  new address src opts =
      if is_empty address
      then refused (invalid_argument (bytes "address is required"))
      else elim src [
        | none ↦ refused (invalid_argument (bytes "token source is required"))
        | some source ↦ created (connect address source (apply_options opts default_config))
      ]

-- The method `CloseIdleConnections`, on the state `S`, where an HTTP client has it.
abbrev pub IdleCloser : Type 0 → Type 0 → Type 0
IdleCloser C S = HttpClient C → Option (S → S)

module _ {C S M R : Type 0} (idle_closer : IdleCloser C S) where
  -- The method `Close`.
  unfoldable pub close_client : Client C S M R → Action S GoError
  close_client c s = elim (idle_closer c.transport.http_client) [
    | none ↦ (nil, s)
    | some close_idle_connections ↦ (nil, close_idle_connections s)
  ]
