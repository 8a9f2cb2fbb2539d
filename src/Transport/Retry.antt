-- ===== src/Transport/Retry.antt =====
-- `retryInterceptor` of internal/transport/interceptor.go against a server that answers the
-- attempts from a list of replies.
pub mod Outcomes
pub mod Repeats
use advanced_imessage_go.Prelude.{
  ℕ, zero, suc, ◌+◌, ◌≤◌, ◌<◌, ◌≡◌, ◌⊎◌, inl, inr, refl, ap, ◌∙◌, arith, List, [], ◌∷◌, ◌++◌, map,
  Bool, true, false, length, replicate, All,
}
use mathlib.Core.List.{append_assoc}
use advanced_imessage_go.Prelude.Int.{ℤ}
use advanced_imessage_go.Errors.Chain.{GoError, opaque}
use advanced_imessage_go.Transport.Runtime.{
  Action, Outcome, ok, fail, Context, Request, UnaryFunc, Surroundings,
}
use advanced_imessage_go.Transport.Interceptors.{
  RetryConfig, server_retryable, backoff, backoff_cap, attempts_of, retry_loop, retry_unary,
}

-- The replies still to come, the requests seen so far, and the rest of the surroundings.
pub record Server (M R T : Type 0) : Type 0 where
  pub replies : List (Outcome R)
  pub seen : List (Request M)
  pub rest : T

module _ {M R T : Type 0} where
  -- The transport below the interceptors: the next reply of the list. Past its end there is no
  -- server, and the call fails.
  unfoldable pub serve : UnaryFunc (Server M R T) M R
  serve ctx req s = elim s.replies [
    | [] ↦ (fail (opaque []), record s { seen = s.seen ++ req ∷ [] })
    | reply ∷ more ↦ (reply, record s { replies = more; seen = s.seen ++ req ∷ [] })
  ]

  abbrev pub on_rest : {A : Type 0} → Action T A → Action (Server M R T) A
  on_rest m s = let (a, t) = m s.rest in (a, record s { rest = t })

  -- The surroundings do not touch the replies or the record of requests.
  abbrev pub lift_surroundings : Surroundings T → Surroundings (Server M R T)
  lift_surroundings env = record {
    token = λ ctx. on_rest (env.token ctx);
    new_key = on_rest env.new_key;
    jitter = λ d. on_rest (env.jitter d);
    wait = λ ctx d. on_rest (env.wait ctx d);
    context_error = λ ctx s. env.context_error ctx s.rest;
    with_timeout = λ ctx d. on_rest (env.with_timeout ctx d);
    new_error = env.new_error;
  }

-- A reply after which the loop stops at once.
abbrev pub Stops : {R : Type 0} → Outcome R → Type 0
Stops (ok _) = Unit
Stops (fail err) = server_retryable err ≡ false

-- What the surroundings become by one delay.
abbrev pub rest_after : {T : Type 0} → Surroundings T → RetryConfig → Context → ℕ → T → T
rest_after env cfg ctx attempt t =
    let (d, t') = env.jitter (backoff_cap cfg attempt) t in (env.wait ctx d t').1

-- Whether the timer of a delay fires before the context is done.
abbrev pub Fires : {T : Type 0} → Surroundings T → RetryConfig → Context → Bool → ℕ → T → Type 0
Fires env cfg ctx fired attempt t =
    let (d, t') = env.jitter (backoff_cap cfg attempt) t in (env.wait ctx d t').0 ≡ fired

-- The context is never done while the loop waits.
abbrev pub IsLive : {T : Type 0} → Surroundings T → Context → Type 0
IsLive {T} env ctx = (d : ℤ) (t : T) → (env.wait ctx d t).0 ≡ true

module _ {M R T : Type 0} (env : Surroundings T) (cfg : RetryConfig) (ctx : Context)
    (req : Request M) where
  abbrev pub run_loop : (bound left attempt : ℕ) → GoError → Action (Server M R T) (Outcome R)
  run_loop bound left attempt =
      retry_loop (lift_surroundings env) cfg bound serve ctx req left attempt

  pub stop_step :
      (bound left attempt : ℕ) (last : GoError) (reply : Outcome R) (more : List (Outcome R))
      (seen : List (Request M)) (t : T)
      → Stops reply ⊎ (attempt + 1 ≡ bound)
      → run_loop bound
          (suc left)
          attempt
          last
          (record { replies = reply ∷ more; seen = seen; rest = t })
        ≡ (reply, record { replies = more; seen = seen ++ req ∷ []; rest = t })
  unfolding retry_loop serve
  stop_step bound left attempt last (ok r) more seen t h = refl
  stop_step bound left attempt last (fail err) more seen t h = ground arith

  pub retry_step :
      (bound left attempt : ℕ) (last err : GoError) (more : List (Outcome R))
      (seen : List (Request M)) (t : T)
      → Fires env cfg ctx true attempt t
      → server_retryable err ≡ true
      → attempt + 1 < bound
      → run_loop bound
          (suc left)
          attempt
          last
          (record { replies = fail err ∷ more; seen = seen; rest = t })
        ≡ run_loop bound left (attempt + 1) err (record {
          replies = more;
          seen = seen ++ req ∷ [];
          rest = rest_after env cfg ctx attempt t;
        })
  unfolding retry_loop serve backoff
  retry_step bound left attempt last err more seen t fired r h = ground (arith, fired)

  pub break_step :
      (bound left attempt : ℕ) (last err : GoError) (more : List (Outcome R))
      (seen : List (Request M)) (t : T)
      → Fires env cfg ctx false attempt t
      → server_retryable err ≡ true
      → attempt + 1 < bound
      → run_loop bound
          (suc left)
          attempt
          last
          (record { replies = fail err ∷ more; seen = seen; rest = t })
        ≡ (
          fail (env.context_error ctx (rest_after env cfg ctx attempt t)),
          record {
            replies = more;
            seen = seen ++ req ∷ [];
            rest = rest_after env cfg ctx attempt t;
          },
        )
  unfolding retry_loop serve backoff
  break_step bound left attempt last err more seen t fired r h = ground (arith, fired)

  retry_loop_lem :
      (retried : List GoError) (bound left attempt : ℕ) (last : GoError) (reply : Outcome R)
      (more : List (Outcome R)) (seen : List (Request M)) (t : T)
      → IsLive env ctx
      → All (λ err. server_retryable err ≡ true) retried
      → length retried < left
      → attempt + left ≡ bound
      → Stops reply ⊎ (length retried + 1 ≡ left)
      → (t' : T) × (run_loop bound left attempt last
            (record { replies = map fail retried ++ reply ∷ more; seen = seen; rest = t })
          ≡ (
            reply,
            record {
              replies = more;
              seen = seen ++ replicate (suc (length retried)) req;
              rest = t';
            },
          ))
  retry_loop_lem [] bound zero attempt last reply more seen t live all fits sum stop = elim fits [ ]
  retry_loop_lem (err ∷ retried) bound zero attempt last reply more seen t live all fits sum stop =
      elim fits [ ]
  retry_loop_lem [] bound (suc left) attempt last reply more seen t live all fits sum stop =
      (t, stop_step bound left attempt last reply more seen t at_end)
    where
      at_end : Stops reply ⊎ (attempt + 1 ≡ bound)
      at_end = elim stop [ inl p ↦ inl p | inr p ↦ inr (omega arith) ]
  retry_loop_lem (err ∷ retried) bound (suc left) attempt last reply more seen t live all fits sum
        stop =
      let (t', e) =
        retry_loop_lem retried bound left (attempt + 1) err reply more (seen ++ req ∷ [])
          (rest_after env cfg ctx attempt t) live all.1 (omega arith) (omega arith) later in
      (
        t',
        retry_step bound left attempt last err (map fail retried ++ reply ∷ more) seen t (live _ _)
              all.0 (omega arith)
            ∙ (e
                ∙ ap (λ l. (reply, record { replies = more; seen = l; rest = t' }))
                    (append_assoc seen (req ∷ []) _)),
      )
    where
      later : Stops reply ⊎ (length retried + 1 ≡ left)
      later = elim stop [ inl p ↦ inl p | inr p ↦ inr (omega arith) ]

  abbrev pub scripted : List (Outcome R) → List (Request M) → T → Server M R T
  scripted replies seen t = record { replies = replies; seen = seen; rest = t }

  -- Against a server that fails with retryable errors `retried` and then replies `reply`, where
  -- `reply` is no retryable failure or the attempts are used up by it: the call returns `reply`,
  -- the server has seen the same request once for each reply, and no later reply is asked for.
  -- The context must not be done during the delays.
  pub retry_unary_result :
      (retried : List GoError) (reply : Outcome R) (more : List (Outcome R))
      (seen : List (Request M)) (t : T)
      → IsLive env ctx
      → All (λ err. server_retryable err ≡ true) retried
      → length retried < attempts_of cfg
      → Stops reply ⊎ (length retried + 1 ≡ attempts_of cfg)
      → (t' : T) × (retry_unary
            (lift_surroundings env)
            cfg
            serve
            ctx
            req
            (scripted (map fail retried ++ reply ∷ more) seen t)
          ≡ (reply, scripted more (seen ++ replicate (suc (length retried)) req) t'))
  unfolding retry_unary
  retry_unary_result retried reply more seen t live all fits stop =
      retry_loop_lem retried (attempts_of cfg) (attempts_of cfg) 0 GoError.nil reply more seen t
        live all fits (omega arith) stop

-- At least one attempt is made whatever the configuration says.
pub attempts_of_bounds : (cfg : RetryConfig) → 1 ≤ attempts_of cfg
unfolding attempts_of
attempts_of_bounds cfg = ground arith
