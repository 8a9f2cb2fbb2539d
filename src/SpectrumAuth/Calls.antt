-- ===== src/SpectrumAuth/Calls.antt =====
-- The token source of examples/internal/spectrumauth/spectrumauth.go under the interceptors of a
-- client.
use advanced_imessage_go.Prelude.{true, some, ◌≡◌, ◌⊎◌, inl, inr, refl, ap}
use advanced_imessage_go.Prelude.Int.{ℤ, ltb_ℤ}
use advanced_imessage_go.Prelude.Text.{GoString}
use advanced_imessage_go.Prelude.Header.{lookup}
use advanced_imessage_go.Errors.Codes.{unauthenticated}
use advanced_imessage_go.Errors.Chain.{GoError}
use advanced_imessage_go.Transport.Runtime.{
  Action, Outcome, ok, fail, Context, Request, Surroundings,
}
use advanced_imessage_go.Transport.Retry.{Server}
use advanced_imessage_go.Transport.Retry.Repeats.{SentBetween}
use advanced_imessage_go.Transport.Dial.{Config}
use advanced_imessage_go.Transport.Dial.Sent.{IsSent, most_sent}
use advanced_imessage_go.Transport.Dial.Requests.{call, call_requests, call_token_error}
use advanced_imessage_go.Client
use advanced_imessage_go.Client.{TokenSource, token_func, with_source}
use advanced_imessage_go.SpectrumAuth.{Tokens, Library}
use advanced_imessage_go.SpectrumAuth.Source.{Web, CachedSource, token}
use advanced_imessage_go.SpectrumAuth.Freshness.{exchange_of, AnswersInTime, IsHonest, token_fresh}

module _ {C W : Type 0} (lib : Library) (web : Web C W) (expires : GoString → ℤ)
    (env : Surroundings (CachedSource C × W)) where
  -- The source that `Connect` returns as the token source of a client. Its cache is a part of the
  -- state of the surroundings.
  abbrev pub refreshing_token : Context → Action (CachedSource C × W) (Outcome GoString)
  refreshing_token ctx (src, w) =
      let ((reply, src'), w') = token lib web ctx src w in (reply, (src', w'))

  abbrev pub refreshing : TokenSource (CachedSource C × W)
  refreshing = token_func refreshing_token

  abbrev pub refreshing_surroundings : Surroundings (CachedSource C × W)
  refreshing_surroundings = with_source env refreshing

  -- The server still took the token when the call asked for it, or the token had just been
  -- exchanged for the instance of the source.
  abbrev pub WasFresh : Context → CachedSource C × W → GoString → Type 0
  WasFresh ctx (src, w) tok =
      (ltb_ℤ (web.now w).0 (expires tok) ≡ true)
      ⊎ ((w' : W) × (t : Tokens) × ((exchange_of lib web ctx expires src w').0 ≡ ok t)
          × (lookup src.instance_id t.auth ≡ some tok))

  module _ {M R D : Type 0} (cfg : Config D) (ctx : Context) (req : Request M)
      (s : Server M R (CachedSource C × W)) where
    abbrev pub after_call : Outcome R × Server M R (CachedSource C × W)
    after_call = call refreshing_surroundings cfg ctx req s

    abbrev pub SentFresh : Type 0
    SentFresh =
        (tok : GoString) × (t : CachedSource C × W) × (sent : Request M) × IsSent cfg req tok
          (env.new_key t).0 sent
        × SentBetween s after_call.1 sent (most_sent cfg)
        × WasFresh ctx s.rest tok

    abbrev pub NotSent : Type 0
    NotSent =
        (err : GoError) × (after_call.0 ≡ fail (env.new_error unauthenticated err))
        × (after_call.1.seen ≡ s.seen)

    with_token :
        (tok : GoString)
        → AnswersInTime lib web ctx expires
        → IsHonest lib web ctx expires s.rest.0
        → (refreshing_surroundings.token ctx s.rest).0 ≡ ok tok
        → SentFresh
    unfolding Client.token
    with_token tok prompt honest h =
        let (src, w) = s.rest in
        let (t, sent, as_asked, between) =
          call_requests refreshing_surroundings cfg ctx req s tok h in
        let (same, kept, fresh) =
          token_fresh lib web ctx expires src (token lib web ctx src w).0.1 tok w prompt honest
            (ap (λ r. (r, (token lib web ctx src w).0.1)) h) in
        (
          tok,
          t,
          sent,
          as_asked,
          between,
          elim fresh [ inl (still, early) ↦ inl early | inr exchanged ↦ inr exchanged ],
        )

    -- A unary call of a client whose token source is the one of `Connect`, under any configuration
    -- of the interceptors. If the server answers the exchange in time and the cached token of the
    -- source is not used for longer than the server takes it, then every attempt of the call sends
    -- the same authorized request, whose token the server still took when the call began or had
    -- just issued for the instance; or there is no token, nothing is sent, and the call fails as
    -- unauthenticated.
    pub call_fresh :
        AnswersInTime lib web ctx expires
        → IsHonest lib web ctx expires s.rest.0
        → SentFresh ⊎ NotSent
    call_fresh prompt honest = replied (refreshing_surroundings.token ctx s.rest).0 refl
      where
        replied :
            (o : Outcome GoString)
            → (refreshing_surroundings.token ctx s.rest).0 ≡ o
            → SentFresh ⊎ NotSent
        replied (ok tok) h = inl (with_token tok prompt honest h)
        replied (fail err) h =
            let (failed, still) = call_token_error refreshing_surroundings cfg ctx req s err h in
            inr (err, failed, still)
