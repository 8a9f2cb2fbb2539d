-- ===== src/Transport/Dial/Requests.antt =====
-- The requests that reach the server through the interceptors of internal/transport/dial.go.
use advanced_imessage_go.Prelude.{
  ℕ, ◌≡◌, refl, ap, ◌∙◌, arith, List, [], ◌∷◌, ◌++◌, Bool, true, false, ◌&&◌, is_some,
  if◌then◌else◌,
}
use advanced_imessage_go.Prelude.Text.{GoString, is_empty}
use advanced_imessage_go.Prelude.Int.{ℤ, pos, ltb_ℤ}
use advanced_imessage_go.Prelude.Header.{header_get}
use advanced_imessage_go.Errors.Codes.{unauthenticated}
use advanced_imessage_go.Errors.Chain.{GoError}
use advanced_imessage_go.Transport.Runtime.{
  Outcome, ok, fail, Context, Request, UnaryFunc, Interceptor, Surroundings,
}
use advanced_imessage_go.Transport.Interceptors.{
  authorization_header, idempotency_header, is_mutating, attempts_of, set_header, bearer,
  auth_unary, timeout_unary, idempotency_unary, retry_unary, unary_interceptor, auth_interceptor,
}
use advanced_imessage_go.Transport.Retry.{Server, serve, lift_surroundings}
use advanced_imessage_go.Transport.Retry.Repeats.{
  SentBetween, OnlyRepeats, serve-OnlyRepeats, retry_unary-OnlyRepeats,
}
use advanced_imessage_go.Transport.Dial.{Config, interceptors_of, optional, nest_unary}
use advanced_imessage_go.Transport.Dial.Sent.{with_key, IsSent, most_sent, with_key-IsSent}

module _ {S M R : Type 0} where
  nest_unary-append :
      (is js : List (Interceptor S M R)) (next : UnaryFunc S M R)
      → nest_unary (is ++ js) next ≡ nest_unary is (nest_unary js next)
  nest_unary-append [] js next = refl
  nest_unary-append (i ∷ is) js next = ap i.wrap_unary (nest_unary-append is js next)

module _ {M R T : Type 0} (env : Surroundings T) where
  abbrev lifted : Surroundings (Server M R T)
  lifted = lift_surroundings env

  -- `f` adds a key to the request and then only repeats it.
  abbrev KeyedRepeats : UnaryFunc (Server M R T) M R → Bool → ℕ → Type 0
  KeyedRepeats f auto most =
      (ctx : Context) (req : Request M) (s : Server M R T)
      → (t : T) × SentBetween s (f ctx req s).1 (with_key env auto t req) most

  idempotency-KeyedRepeats :
      (f : UnaryFunc (Server M R T) M R) (auto : Bool) (most : ℕ)
      → OnlyRepeats f most
      → KeyedRepeats
          (nest_unary (optional auto (unary_interceptor (idempotency_unary lifted))) f)
          auto
          most
  unfolding idempotency_unary
  idempotency-KeyedRepeats f false most h ctx req s = (s.rest, h ctx req s)
  idempotency-KeyedRepeats f true most h ctx req s = (
    s.rest,
    go (is_mutating req.procedure && is_empty (header_get req.header idempotency_header)),
  )
    where
      go :
          (b : Bool)
          → SentBetween s
              (if◌then◌else◌ {A = Server M R T → Outcome R × Server M R T} b
                (λ u.
                  let (key, s') = lifted.new_key u in
                  f ctx (set_header req idempotency_header key) s')
                (f ctx req)
                s).1
              (if b then set_header req idempotency_header (env.new_key s.rest).0 else req)
              most
      go true =
          h ctx (set_header req idempotency_header (env.new_key s.rest).0) (lifted.new_key s).1
      go false = h ctx req s

  timeout-KeyedRepeats :
      (f : UnaryFunc (Server M R T) M R) (auto limited : Bool) (d : ℤ) (most : ℕ)
      → KeyedRepeats f auto most
      → KeyedRepeats
          (nest_unary (optional limited (unary_interceptor (timeout_unary lifted d))) f)
          auto
          most
  unfolding timeout_unary
  timeout-KeyedRepeats f auto false d most h ctx req s = h ctx req s
  timeout-KeyedRepeats f auto true d most h ctx req s = go (is_some ctx.deadline)
    where
      go :
          (b : Bool)
          → (t : T) × SentBetween s
              (if◌then◌else◌ {A = Server M R T → Outcome R × Server M R T} b
                (f ctx req)
                (λ u. let (c, s') = lifted.with_timeout ctx d u in f c req s')
                s).1
              (with_key env auto t req)
              most
      go true = h ctx req s
      go false = h (lifted.with_timeout ctx d s).0 req (lifted.with_timeout ctx d s).1

  retry-OnlyRepeats :
      {C : Type 0} (cfg : Config C)
      → OnlyRepeats
          (nest_unary
            (optional cfg.retry_enabled (unary_interceptor (retry_unary lifted cfg.retry)))
            serve)
          (most_sent cfg)
  retry-OnlyRepeats cfg = go cfg.retry_enabled
    where
      go :
          (b : Bool)
          → OnlyRepeats
              (nest_unary (optional b (unary_interceptor (retry_unary lifted cfg.retry))) serve)
              (if b then attempts_of cfg.retry else 1)
      go true = retry_unary-OnlyRepeats env cfg.retry
      go false = serve-OnlyRepeats

  module _ {C : Type 0} (cfg : Config C) where
    abbrev limits : List (Interceptor (Server M R T) M R)
    limits =
        optional (ltb_ℤ (pos 0) cfg.timeout) (unary_interceptor (timeout_unary lifted cfg.timeout))

    abbrev keys : List (Interceptor (Server M R T) M R)
    keys = optional cfg.auto_idempotency (unary_interceptor (idempotency_unary lifted))

    abbrev retries : List (Interceptor (Server M R T) M R)
    retries = optional cfg.retry_enabled (unary_interceptor (retry_unary lifted cfg.retry))

    -- The function behind the authentication.
    abbrev inner : UnaryFunc (Server M R T) M R
    inner = nest_unary limits (nest_unary keys (nest_unary retries serve))

    -- A unary call through all interceptors.
    abbrev pub call : UnaryFunc (Server M R T) M R
    call = nest_unary (interceptors_of lifted cfg) serve

    abbrev auths : List (Interceptor (Server M R T) M R)
    auths = auth_interceptor lifted ∷ []

    call_lem : call ≡ auth_unary lifted inner
    unfolding interceptors_of
    call_lem =
        nest_unary-append ((auths ++ limits) ++ keys) retries serve
        ∙ (nest_unary-append (auths ++ limits) keys (nest_unary retries serve)
            ∙ nest_unary-append auths limits (nest_unary keys (nest_unary retries serve)))

  inner-KeyedRepeats :
      {C : Type 0} (cfg : Config C) → KeyedRepeats (inner cfg) cfg.auto_idempotency (most_sent cfg)
  inner-KeyedRepeats cfg =
      timeout-KeyedRepeats _ cfg.auto_idempotency (ltb_ℤ (pos 0) cfg.timeout) cfg.timeout
        (most_sent cfg)
        (idempotency-KeyedRepeats _ cfg.auto_idempotency (most_sent cfg) (retry-OnlyRepeats cfg))

  auth_unary_ok :
      (f : UnaryFunc (Server M R T) M R) (ctx : Context) (req : Request M) (s : Server M R T)
      (tok : GoString)
      → (env.token ctx s.rest).0 ≡ ok tok
      → auth_unary lifted f ctx req s
        ≡ f ctx
            (set_header req authorization_header (bearer tok))
            (record s { rest = (env.token ctx s.rest).1 })
  unfolding auth_unary
  auth_unary_ok f ctx req s tok h = ground arith

  -- With a token, whatever the server replies: every attempt of a unary call sends the same
  -- request. It has the procedure and the message of the caller and the bearer token, and where
  -- idempotency is on, the procedure is mutating and the caller set no key, the key that was
  -- generated once; otherwise the caller's key or none. It is sent at least once, and at most as
  -- often as the retry configuration says (once if retry is off).
  pub call_requests :
      {C : Type 0} (cfg : Config C) (ctx : Context) (req : Request M) (s : Server M R T)
      (tok : GoString)
      → (env.token ctx s.rest).0 ≡ ok tok
      → (t : T) × (sent : Request M) × IsSent cfg req tok (env.new_key t).0 sent
        × SentBetween s (call cfg ctx req s).1 sent (most_sent cfg)
  call_requests cfg ctx req s tok h =
      let (t, sent) =
        inner-KeyedRepeats cfg ctx (set_header req authorization_header (bearer tok))
          (record s { rest = (env.token ctx s.rest).1 }) in
      (
        t,
        with_key env cfg.auto_idempotency t (set_header req authorization_header (bearer tok)),
        with_key-IsSent env cfg req tok t,
        (
          sent.0,
          ap (λ f. (f ctx req s).1.seen) (call_lem cfg)
              ∙ (ap (λ p. p.1.seen) (auth_unary_ok (inner cfg) ctx req s tok h) ∙ sent.1),
          sent.2,
          sent.3,
        ),
      )

  -- Without a token nothing is sent, and the call fails as unauthenticated.
  pub call_token_error :
      {C : Type 0} (cfg : Config C) (ctx : Context) (req : Request M) (s : Server M R T)
      (err : GoError)
      → (env.token ctx s.rest).0 ≡ fail err
      → ((call cfg ctx req s).0 ≡ fail (env.new_error unauthenticated err))
        × ((call cfg ctx req s).1.seen ≡ s.seen)
  unfolding auth_unary
  call_token_error cfg ctx req s err h = rw (call_lem cfg) (ground arith, ground arith)
