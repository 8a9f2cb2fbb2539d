-- ===== src/Transport/Backoff.antt =====
-- The delays of `backoff` in internal/transport/interceptor.go.
use advanced_imessage_go.Prelude.{ℕ, ◌≡◌, refl, arith}
use advanced_imessage_go.Prelude.Int.{ℤ, pos, ◌≤ℤ◌, int64}
use advanced_imessage_go.Transport.Runtime.{Surroundings}
use advanced_imessage_go.Transport.Interceptors.{RetryConfig, backoff_cap, backoff}

-- The delay before the jitter never passes the configured maximum, and it is not negative if the
-- maximum is not: an overflowing shift falls back to the maximum or lands between.
pub backoff_cap_bounds :
    (cfg : RetryConfig) (attempt : ℕ)
    → pos 0 ≤ℤ cfg.max_delay
    → (pos 0 ≤ℤ backoff_cap cfg attempt) × (backoff_cap cfg attempt ≤ℤ cfg.max_delay)
unfolding backoff_cap
backoff_cap_bounds cfg attempt h = (ground arith, ground arith)

module _ {S : Type 0} (env : Surroundings S) where
  -- With jitter between zero and the delay that it is given, and a maximum that is not negative,
  -- every delay is between zero and the maximum, whatever the attempt.
  pub backoff_bounds :
      ((d : ℤ) (s : S) → pos 0 ≤ℤ d → (pos 0 ≤ℤ (env.jitter d s).0) × ((env.jitter d s).0 ≤ℤ d))
      → (cfg : RetryConfig) (attempt : ℕ) (s : S) → pos 0 ≤ℤ cfg.max_delay
      → (pos 0 ≤ℤ (backoff env cfg attempt s).0) × ((backoff env cfg attempt s).0 ≤ℤ cfg.max_delay)
  unfolding backoff
  backoff_bounds fair cfg attempt s h =
      let (low, high) = backoff_cap_bounds cfg attempt h in
      let (a, b) = fair (backoff_cap cfg attempt) s low in (a, omega (arith, b, high))

-- The test `d <= 0` does not see every overflow: here 2^32 + 1 nanoseconds doubled 32 times wraps
-- round to 2^32, less than the maximum of five seconds.
backoff_cap_wraps :
    backoff_cap
      (record { max_attempts = pos 40; initial_delay = pos 4294967297; max_delay = pos 5000000000 })
      32
    ≡ pos 4294967296
unfolding backoff_cap int64
backoff_cap_wraps = refl
