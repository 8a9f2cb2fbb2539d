-- ===== src/Transport/Retry/Repeats.antt =====
-- Whatever the server replies and however the delays end, `retryInterceptor` only repeats the one
-- request, a bounded number of times.
use mathlib.Core.List.{append_assoc}
use advanced_imessage_go.Prelude.{
  ℕ, zero, suc, ◌+◌, ◌-◌, ◌≤◌, ◌≡◌, ◌⊎◌, inl, inr, refl, ap, ◌∙◌, arith, [], ◌∷◌, ◌++◌, Bool, true,
  false, replicate, not, ◌||◌, ◌==◌,
}
use advanced_imessage_go.Prelude.Int.{ℤ}
use advanced_imessage_go.Errors.Chain.{GoError}
use advanced_imessage_go.Transport.Runtime.{
  Action, Outcome, ok, fail, Context, Request, UnaryFunc, Surroundings,
}
use advanced_imessage_go.Transport.Interceptors.{
  RetryConfig, server_retryable, backoff, backoff_cap, attempts_of, retry_loop, retry_unary,
}
use advanced_imessage_go.Transport.Retry.{Server, serve, lift_surroundings, attempts_of_bounds}

module _ {M R T : Type 0} where
  -- The request reached the server from one to `most` times, and nothing else did.
  abbrev pub SentBetween : Server M R T → Server M R T → Request M → ℕ → Type 0
  SentBetween before after req most =
      (n : ℕ) × (after.seen ≡ before.seen ++ replicate n req) × (1 ≤ n) × (n ≤ most)

  -- `f` only sends the request that it is given.
  abbrev pub OnlyRepeats : UnaryFunc (Server M R T) M R → ℕ → Type 0
  OnlyRepeats f most =
      (ctx : Context) (req : Request M) (s : Server M R T) → SentBetween s (f ctx req s).1 req most

  serve-seen :
      (ctx : Context) (req : Request M) (s : Server M R T)
      → (serve ctx req s).1.seen ≡ s.seen ++ req ∷ []
  unfolding serve
  serve-seen ctx req s = ground arith

  pub serve-OnlyRepeats : OnlyRepeats serve 1
  serve-OnlyRepeats ctx req s = (1, serve-seen ctx req s, omega arith, omega arith)

  module _ (env : Surroundings T) (cfg : RetryConfig) (ctx : Context) (req : Request M) where
    abbrev loop : (bound left attempt : ℕ) → GoError → Action (Server M R T) (Outcome R)
    loop bound left attempt =
        retry_loop (lift_surroundings env) cfg bound serve ctx req left attempt

    -- One round: the loop ends, or goes on with one request more.
    abbrev Round : (bound left attempt : ℕ) → GoError → Server M R T → Type 0
    Round bound left attempt last s =
        ((loop bound (suc left) attempt last s).1.seen ≡ s.seen ++ req ∷ [])
        ⊎ ((err : GoError) × (s' : Server M R T) × (loop bound (suc left) attempt last s
              ≡ loop bound left (attempt + 1) err s')
            × (s'.seen ≡ s.seen ++ req ∷ []))

    abbrev delay : ℕ → Server M R T → ℤ
    delay attempt s = (env.jitter (backoff_cap cfg attempt) s.rest).0

    abbrev after_jitter : ℕ → Server M R T → T
    after_jitter attempt s = (env.jitter (backoff_cap cfg attempt) s.rest).1

    round_lem :
        (bound left attempt : ℕ) (last : GoError) (s : Server M R T)
        → Round bound left attempt last s
    unfolding retry_loop backoff
    round_lem bound left attempt last s = on_reply (serve ctx req s).0 refl
      where
        on_wait :
            (err : GoError)
            → (serve ctx req s).0 ≡ fail err
            → (attempt == bound - 1 || not (server_retryable err)) ≡ false
            → (fired : Bool)
            → (env.wait ctx
                (delay attempt (serve ctx req s).1)
                (after_jitter attempt (serve ctx req s).1)).0
              ≡ fired
            → Round bound left attempt last s
        on_wait err e go_on true f = inr (
          err,
          record (serve ctx req s).1 {
            rest =
                (env.wait ctx (delay attempt (serve ctx req s).1)
                  (after_jitter attempt (serve ctx req s).1)).1;
          },
          ground arith,
          serve-seen ctx req s,
        )
        on_wait err e go_on false f = inl (ground (arith, serve-seen ctx req s))

        on_failure :
            (err : GoError)
            → (serve ctx req s).0 ≡ fail err
            → (stop : Bool) → (attempt == bound - 1 || not (server_retryable err)) ≡ stop
            → Round bound left attempt last s
        on_failure err e true st = inl (ground (arith, serve-seen ctx req s))
        on_failure err e false st =
            on_wait err e st
              (env.wait ctx (delay attempt (serve ctx req s).1)
                (after_jitter attempt (serve ctx req s).1)).0
              refl

        on_reply :
            (reply : Outcome R) → (serve ctx req s).0 ≡ reply → Round bound left attempt last s
        on_reply (ok r) e = inl (ground (arith, serve-seen ctx req s))
        on_reply (fail err) e =
            on_failure err e (attempt == bound - 1 || not (server_retryable err)) refl

    loop-zero :
        (bound attempt : ℕ) (last : GoError) (s : Server M R T)
        → (loop bound zero attempt last s).1.seen ≡ s.seen
    unfolding retry_loop
    loop-zero bound attempt last s = refl

    loop-repeats :
        (bound left attempt : ℕ) (last : GoError) (s : Server M R T)
        → SentBetween s (loop bound (suc left) attempt last s).1 req (suc left)
    loop-repeats bound zero attempt last s = elim (round_lem bound zero attempt last s) [
      | inl e ↦ (1, e, omega arith, omega arith)
      | inr (err, s', e, seen) ↦ (
        1,
        ap (λ p. p.1.seen) e ∙ (loop-zero bound (attempt + 1) err s' ∙ seen),
        omega arith,
        omega arith,
      )
    ]
    loop-repeats bound (suc left) attempt last s =
        elim (round_lem bound (suc left) attempt last s) [
          | inl e ↦ (1, e, omega arith, omega arith)
          | inr (err, s', e, seen) ↦
              let (n, sent, low, high) = loop-repeats bound left (attempt + 1) err s' in
              (
                suc n,
                ap (λ p. p.1.seen) e
                    ∙ (sent
                        ∙ (ap (λ l. l ++ replicate n req) seen
                            ∙ append_assoc s.seen (req ∷ []) (replicate n req))),
                omega arith,
                omega arith,
              )
        ]

  -- Whatever the server replies and however the delays end, a retried call sends the one request
  -- it was given, at least once and at most as often as the configuration allows.
  pub retry_unary-OnlyRepeats :
      (env : Surroundings T) (cfg : RetryConfig)
      → OnlyRepeats (retry_unary (lift_surroundings env) cfg serve) (attempts_of cfg)
  unfolding retry_unary
  retry_unary-OnlyRepeats env cfg ctx req s = go (attempts_of cfg) (attempts_of_bounds cfg)
    where
      go : (n : ℕ) → 1 ≤ n → SentBetween s (loop env cfg ctx req n n 0 GoError.nil s).1 req n
      go zero h = elim h [ ]
      go (suc n) h = loop-repeats env cfg ctx req (suc n) n 0 GoError.nil s
