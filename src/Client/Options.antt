-- ===== src/Client/Options.antt =====
-- What a list of options of options.go resolves to.
use advanced_imessage_go.Prelude.{
  List, [], ◌∷◌, ◌++◌, Bool, true, false, ◌||◌, Option, none, some, ◌≡◌, refl, arith, ap, ◌∙◌,
  if◌then◌else◌,
}
use advanced_imessage_go.Prelude.Int.{ℤ}
use advanced_imessage_go.Transport.Interceptors.{RetryConfig}
use advanced_imessage_go.Client.{
  ClientConfig, default_config, default_retry, RetryOption, with_max_attempts, with_initial_delay,
  with_max_delay, ClientOption, without_tls, with_timeout, with_retry, with_auto_idempotency,
  with_http_client, apply_retry, apply_retries, apply, apply_options, is_zero,
}

abbrev or_value {ℓ} : {A : Type ℓ} → A → Option A → A
or_value a none = a
or_value a (some b) = b

-- The last value that `f` finds.
unfoldable pub last_of {ℓ κ} : {O : Type ℓ} {A : Type κ} → (O → Option A) → List O → Option A
last_of f [] = none
last_of f (o ∷ opts) = elim (last_of f opts) [ some a ↦ some a | none ↦ f o ]

unfoldable pub any {ℓ} : {O : Type ℓ} → (O → Bool) → List O → Bool
any f [] = false
any f (o ∷ opts) = f o || any f opts

abbrev max_attempts_of : RetryOption → Option ℤ
max_attempts_of (with_max_attempts n) = some n
max_attempts_of _ = none

abbrev initial_delay_of : RetryOption → Option ℤ
initial_delay_of (with_initial_delay d) = some d
initial_delay_of _ = none

abbrev max_delay_of : RetryOption → Option ℤ
max_delay_of (with_max_delay d) = some d
max_delay_of _ = none

module _ {C : Type 0} where
  abbrev timeout_of : ClientOption C → Option ℤ
  timeout_of (with_timeout d) = some d
  timeout_of _ = none

  abbrev http_client_of : ClientOption C → Option (Option C)
  http_client_of (with_http_client hc) = some hc
  http_client_of _ = none

  abbrev is_without_tls : ClientOption C → Bool
  is_without_tls without_tls = true
  is_without_tls _ = false

  abbrev pub is_with_retry : ClientOption C → Bool
  is_with_retry (with_retry _) = true
  is_with_retry _ = false

  abbrev is_with_auto_idempotency : ClientOption C → Bool
  is_with_auto_idempotency with_auto_idempotency = true
  is_with_auto_idempotency _ = false

-- The last option of each kind decides, and the default where there is none.
pub record RetryResolves (opts : List RetryOption) (default r : RetryConfig) : Type 0 where
  pub attempts : r.max_attempts ≡ or_value default.max_attempts (last_of max_attempts_of opts)
  pub initial : r.initial_delay ≡ or_value default.initial_delay (last_of initial_delay_of opts)
  pub longest : r.max_delay ≡ or_value default.max_delay (last_of max_delay_of opts)

apply_retries-RetryResolves :
    (opts : List RetryOption) (r : RetryConfig) → RetryResolves opts r (apply_retries opts r)
unfolding apply_retries apply_retry last_of
apply_retries-RetryResolves [] r = record { attempts = refl; initial = refl; longest = refl }
apply_retries-RetryResolves (o ∷ opts) r =
    let rest = apply_retries-RetryResolves opts (apply_retry o r) in
    record {
      attempts = ground (arith, rest.attempts);
      initial = ground (arith, rest.initial);
      longest = ground (arith, rest.longest);
    }

-- The `WithRetry` options among some options.
unfoldable pub retries_of : {C : Type 0} → List (ClientOption C) → List (ClientOption C)
retries_of [] = []
retries_of (o ∷ opts) = if is_with_retry o then o ∷ retries_of opts else retries_of opts

-- TLS, retry and idempotency as whether any option asks for it; the timeout and the HTTP client
-- by the last option; the retry settings by the `WithRetry` options alone.
pub record OptionsResolve {C : Type 0} (opts : List (ClientOption C)) (default c : ClientConfig C)
    : Type 0 where
  pub insecure : c.insecure ≡ (default.insecure || any is_without_tls opts)
  pub timeout : c.timeout ≡ or_value default.timeout (last_of timeout_of opts)
  pub retried : c.retry_enabled ≡ (default.retry_enabled || any is_with_retry opts)
  pub keyed : c.auto_idempotency ≡ (default.auto_idempotency || any is_with_auto_idempotency opts)
  pub http_client : c.http_client ≡ or_value default.http_client (last_of http_client_of opts)
  pub retry : c.retry ≡ (apply_options (retries_of opts) default).retry

module _ {C : Type 0} where
  -- The retry settings depend on nothing but the retry settings before.
  apply_options_retry :
      (opts : List (ClientOption C)) (c d : ClientConfig C)
      → c.retry ≡ d.retry
      → (apply_options opts c).retry ≡ (apply_options opts d).retry
  unfolding apply_options apply
  apply_options_retry [] c d h = h
  apply_options_retry (o ∷ opts) c d h = apply_options_retry opts (apply o c) (apply o d) (same o)
    where
      same : (o : ClientOption C) → (apply o c).retry ≡ (apply o d).retry
      same without_tls = h
      same (with_timeout t) = h
      same (with_retry l) =
          ap (λ r. apply_retries l (if is_zero r.max_attempts then default_retry else r)) h
      same with_auto_idempotency = h
      same (with_http_client hc) = h

  only_retries :
      (o : ClientOption C) (opts : List (ClientOption C)) (c : ClientConfig C)
      → (apply_options (retries_of opts) (apply o c)).retry
        ≡ (apply_options (retries_of (o ∷ opts)) c).retry
  unfolding apply_options apply retries_of
  only_retries without_tls opts c = apply_options_retry (retries_of opts) _ c refl
  only_retries (with_timeout t) opts c = apply_options_retry (retries_of opts) _ c refl
  only_retries (with_retry l) opts c = refl
  only_retries with_auto_idempotency opts c = apply_options_retry (retries_of opts) _ c refl
  only_retries (with_http_client hc) opts c = apply_options_retry (retries_of opts) _ c refl

  -- Options are applied in order: a client has no TLS, retries or generates keys exactly if one of
  -- its options asks for that, and the last timeout and the last HTTP client that are given hold.
  -- The retry settings are those that the `WithRetry` options alone would give, in their order: no
  -- other option touches them.
  pub apply_options-OptionsResolve :
      (opts : List (ClientOption C)) (c : ClientConfig C)
      → OptionsResolve opts c (apply_options opts c)
  unfolding apply_options apply last_of any retries_of
  apply_options-OptionsResolve [] c = record {
    insecure = ground arith;
    timeout = refl;
    retried = ground arith;
    keyed = ground arith;
    http_client = refl;
    retry = refl;
  }
  apply_options-OptionsResolve (o ∷ opts) c =
      let rest = apply_options-OptionsResolve opts (apply o c) in
      record {
        insecure = ground (arith, rest.insecure);
        timeout = ground (arith, rest.timeout);
        retried = ground (arith, rest.retried);
        keyed = ground (arith, rest.keyed);
        http_client = ground (arith, rest.http_client);
        retry = rest.retry ∙ only_retries o opts c;
      }

  apply_options-append :
      (a b : List (ClientOption C)) (c : ClientConfig C)
      → apply_options (a ++ b) c ≡ apply_options b (apply_options a c)
  unfolding apply_options
  apply_options-append [] b c = refl
  apply_options-append (o ∷ a) b c = apply_options-append a b (apply o c)

  untouched_retry :
      (opts : List (ClientOption C)) (c : ClientConfig C)
      → any is_with_retry opts ≡ false
      → (apply_options opts c).retry ≡ c.retry
  unfolding apply_options apply any
  untouched_retry [] c h = refl
  untouched_retry (o ∷ opts) c h = ground (arith, untouched_retry opts (apply o c))

  -- With one `WithRetry` among the options, wherever it stands, the retry settings are the
  -- defaults with the last attempts, initial delay and maximum delay that it was given.
  pub with_retry_once :
      (before after : List (ClientOption C)) (opts : List RetryOption)
      → any is_with_retry before ≡ false
      → any is_with_retry after ≡ false
      → RetryResolves opts default_retry
          (apply_options (before ++ with_retry opts ∷ after) default_config).retry
  unfolding apply_options apply
  with_retry_once before after opts h k =
      let c = apply_options before default_config in
      let same : c.retry ≡ default_retry = untouched_retry before default_config h in
      rw (apply_options-append before (with_retry opts ∷ after) default_config) (
        rw (untouched_retry after (apply (with_retry opts) c) k)
          (rw same (apply_retries-RetryResolves opts default_retry)))
