-- ===== src/Transport/Retry/Outcomes.antt =====
-- All ends of a call through `retryInterceptor`.
use mathlib.Core.List.{append_assoc}
use advanced_imessage_go.Prelude.{
  ℕ, zero, suc, ◌+◌, ◌≤◌, ◌<◌, ◌≡◌, ◌⊎◌, inl, inr, refl, ap, ◌∙◌, arith, List, [], ◌∷◌, ◌++◌, map,
  Bool, true, false, length, replicate, All, leb, Bool-cases,
}
use advanced_imessage_go.Prelude.Int.{ℤ}
use advanced_imessage_go.Errors.Chain.{GoError}
use advanced_imessage_go.Transport.Runtime.{Outcome, ok, fail, Context, Request, Surroundings}
use advanced_imessage_go.Transport.Interceptors.{
  RetryConfig, server_retryable, backoff_cap, attempts_of, retry_unary,
}
use advanced_imessage_go.Transport.Retry.{
  Server, serve, lift_surroundings, Stops, rest_after, run_loop, Fires, stop_step, retry_step,
  break_step, scripted, attempts_of_bounds,
}

abbrev pub Retried : List GoError → Type 0
Retried = All (λ err. server_retryable err ≡ true)

pair_of : {A B : Type 0} (p : A × B) {a : A} → p.0 ≡ a → p ≡ (a, p.1)
pair_of p e = ap (λ x. (x, p.1)) e

module _ {M R T : Type 0} (env : Surroundings T) (cfg : RetryConfig) (ctx : Context)
    (req : Request M) where
  -- The call, of at most `most` attempts, ended with the reply after the retryable failures
  -- `retried`.
  abbrev pub EndsWithReply :
      (most : ℕ) → List (Outcome R) → List (Request M) → Outcome R × Server M R T → Type 0
  EndsWithReply most replies seen out =
      (retried : List GoError) × (more : List (Outcome R)) × (replies
        ≡ map fail retried ++ out.0 ∷ more)
      × Retried retried
      × (Stops out.0 ⊎ (length retried + 1 ≡ most))
      × (out.1.replies ≡ more)
      × (out.1.seen ≡ seen ++ replicate (suc (length retried)) req)

  -- The call ended in the delay after the retryable failures `retried`, as the context was done
  -- before the timer fired.
  abbrev pub EndsInDelay :
      (most : ℕ) → List (Outcome R) → List (Request M) → Outcome R × Server M R T → Type 0
  EndsInDelay most replies seen out =
      (retried : List GoError) × (d : ℤ) × (before : T) × (replies
        ≡ map fail retried ++ out.1.replies)
      × Retried retried
      × (1 ≤ length retried)
      × (length retried < most)
      × (env.wait ctx d before ≡ (false, out.1.rest))
      × (out.0 ≡ fail (env.context_error ctx out.1.rest))
      × (out.1.seen ≡ seen ++ replicate (length retried) req)

  abbrev Ends : (most : ℕ) → List (Outcome R) → List (Request M) → Outcome R × Server M R T → Type 0
  Ends most replies seen out =
      EndsWithReply most replies seen out ⊎ EndsInDelay most replies seen out

  replied :
      (most : ℕ) (reply : Outcome R) (more : List (Outcome R)) (seen : List (Request M)) (t : T)
      → Stops reply ⊎ (1 ≡ most)
      → Ends most (reply ∷ more) seen (reply, scripted env cfg ctx req more (seen ++ req ∷ []) t)
  replied most reply more seen t h = inl ([], more, refl, tt, h, refl, refl)

  Ends-later :
      (most : ℕ) (err : GoError) (replies : List (Outcome R)) (seen : List (Request M))
      (out : Outcome R × Server M R T)
      → server_retryable err ≡ true
      → Ends most replies (seen ++ req ∷ []) out
      → Ends (suc most) (fail err ∷ replies) seen out
  Ends-later most err replies seen out r (inl (retried, more, given, all, stop, rest, sent)) = inl (
    err ∷ retried,
    more,
    ap (λ l. fail err ∷ l) given,
    (r, all),
    elim stop [ inl p ↦ inl p | inr p ↦ inr (omega arith) ],
    rest,
    sent ∙ append_assoc seen (req ∷ []) (replicate (suc (length retried)) req),
  )
  Ends-later most err replies seen out r (inr (retried, d, t, given, all, low, high, w, e, sent)) =
      inr (
        err ∷ retried,
        d,
        t,
        ap (λ l. fail err ∷ l) given,
        (r, all),
        omega arith,
        omega arith,
        w,
        e,
        sent ∙ append_assoc seen (req ∷ []) (replicate (length retried) req),
      )

  in_delay :
      (most attempt : ℕ) (err : GoError) (more : List (Outcome R)) (seen : List (Request M)) (t : T)
      → Fires env cfg ctx false attempt t
      → server_retryable err ≡ true
      → 1 < most
      → let t' = rest_after env cfg ctx attempt t in
        Ends most
          (fail err ∷ more)
          seen
          (fail (env.context_error ctx t'), scripted env cfg ctx req more (seen ++ req ∷ []) t')
  in_delay most attempt err more seen t fired r many =
      let (d, t') = env.jitter (backoff_cap cfg attempt) t in
      inr (
        err ∷ [],
        d,
        t',
        refl,
        (r, tt),
        omega arith,
        omega arith,
        pair_of (env.wait ctx d t') fired,
        refl,
        refl,
      )

  -- A round whose attempt fails, by how the rounds after it end.
  module _ (bound left attempt : ℕ) (last err : GoError) (more : List (Outcome R))
      (seen : List (Request M)) (t : T) (sum : attempt + suc left ≡ bound)
      (later : 1 ≤ left
        → Ends left more (seen ++ req ∷ []) (
            run_loop env cfg ctx req bound left (attempt + 1) err (
              scripted env cfg ctx req more
                (seen ++ req ∷ [])
                (rest_after env cfg ctx attempt t)))) where
    abbrev EndsHere : Type 0
    EndsHere = Ends (suc left) (fail err ∷ more) seen (
        run_loop env cfg ctx req bound (suc left) attempt last
          (scripted env cfg ctx req (fail err ∷ more) seen t))

    delayed :
        (fired : Bool)
        → Fires env cfg ctx fired attempt t
        → server_retryable err ≡ true
        → 1 ≤ left
        → EndsHere
    delayed true fired r some_left =
        rw
          (retry_step env cfg ctx req bound left attempt last err more seen t fired r (omega arith))
          (Ends-later left err more seen _ r (later some_left))
    delayed false fired r some_left =
        rw
          (break_step env cfg ctx req bound left attempt last err more seen t fired r (omega arith))
          (in_delay (suc left) attempt err more seen t fired r (omega arith))

    stopped : Stops {R = R} (fail err) ⊎ (1 ≡ suc left) → EndsHere
    stopped h =
        let at_bound : Stops {R = R} (fail err) ⊎ (attempt + 1 ≡ bound) = elim h [
          | inl p ↦ inl p
          | inr p ↦ inr (omega arith)
        ] in
        rw (stop_step env cfg ctx req bound left attempt last (fail err) more seen t at_bound)
          (replied (suc left) (fail err) more seen t h)

    failed-Ends : EndsHere
    failed-Ends = elim (Bool-cases (server_retryable err)) [
      | inr stop ↦ stopped (inl stop)
      | inl again ↦ elim (Bool-cases (leb 1 left)) [
        | inl e ↦ delayed _ refl again (ground arith)
        | inr e ↦ stopped (inr (ground arith))
      ]
    ]

  loop-Ends :
      (bound left attempt : ℕ) (last : GoError) (replies : List (Outcome R))
      (seen : List (Request M)) (t : T)
      → attempt + left ≡ bound
      → 1 ≤ left
      → left ≤ length replies
      → Ends left replies seen (
          run_loop env cfg ctx req bound left attempt last
            (scripted env cfg ctx req replies seen t))
  loop-Ends bound zero attempt last replies seen t sum low many = elim low [ ]
  loop-Ends bound (suc left) attempt last [] seen t sum low many = elim many [ ]
  loop-Ends bound (suc left) attempt last (ok r ∷ more) seen t sum low many =
      rw (stop_step env cfg ctx req bound left attempt last (ok r) more seen t (inl tt))
        (replied (suc left) (ok r) more seen t (inl tt))
  loop-Ends bound (suc left) attempt last (fail err ∷ more) seen t sum low many =
      failed-Ends bound left attempt last err more seen t sum (λ some_left.
        loop-Ends bound left (attempt + 1) err more (seen ++ req ∷ [])
          (rest_after env cfg ctx attempt t) (omega arith) some_left (omega arith))

  -- All ends of a call, where the server has a reply for each attempt, whatever the replies are and
  -- whenever the context is done: the server fails with a number of retryable errors first, after
  -- which either the call returns the next reply, where that is no retryable failure or the last
  -- attempt, or the context is done before the timer of the delay fires, and the call returns the
  -- error of the context, before the attempts are used up. The server has seen the same request once
  -- for each reply that it gave.
  pub retry_unary-Ends :
      (replies : List (Outcome R)) (seen : List (Request M)) (t : T)
      → attempts_of cfg ≤ length replies
      → let out =
          retry_unary
            (lift_surroundings env)
            cfg
            serve
            ctx
            req
            (scripted env cfg ctx req replies seen t) in
        EndsWithReply (attempts_of cfg) replies seen out
        ⊎ EndsInDelay (attempts_of cfg) replies seen out
  unfolding retry_unary
  retry_unary-Ends replies seen t many =
      loop-Ends (attempts_of cfg) (attempts_of cfg) 0 GoError.nil replies seen t (omega arith)
        (attempts_of_bounds cfg) many
