-- ===== src/SpectrumAuth/Freshness.antt =====
-- How fresh the tokens of examples/internal/spectrumauth/spectrumauth.go are.
use mathlib.Core.Path.{subst}
use advanced_imessage_go.Prelude.{
  ◌-◌, [], true, false, Option, none, some, ◌≡◌, ◌≢◌, ◌⊎◌, inl, inr, refl, sym, ap, ◌∙◌, arith,
  Bool-cases,
}
use advanced_imessage_go.Prelude.Int.{ℤ, pos, negsuc, ◌≤ℤ◌, ltb_ℤ, ◌+ℤ◌, +ℤ_parts}
use advanced_imessage_go.Prelude.Text.{GoString, is_empty, empty_cases}
use advanced_imessage_go.Prelude.Header.{lookup}
use advanced_imessage_go.Transport.Runtime.{Outcome, ok, fail, Context}
use advanced_imessage_go.SpectrumAuth.{Tokens, Library}
use advanced_imessage_go.SpectrumAuth.Source.{
  refresh_skew, Web, CachedSource, lifetime, expiry_at, exchange, stored_token, refreshed, token,
}

module _ {C S : Type 0} (lib : Library) (web : Web C S) (ctx : Context)
    (expires : GoString → ℤ) where
  -- The exchange of a source, from the state `s`.
  abbrev pub exchange_of : CachedSource C → S → Outcome Tokens × S
  exchange_of src s =
      exchange lib web ctx src.http_client src.base_url src.project_id src.project_secret s

  -- `expires tok` is the time until which the server takes `tok`. A token lives for the lifetime
  -- that the response says, counted from a moment at most 60 s before the client reads its clock.
  abbrev pub AnswersInTime : Type 0
  AnswersInTime =
      (src : CachedSource C) (s : S) (t : Tokens) (tok : GoString)
      → (exchange_of src s).0 ≡ ok t
      → lookup src.instance_id t.auth ≡ some tok
      → ((web.now (exchange_of src s).1).0 +ℤ lifetime t.expires_in)
        ≤ℤ (expires tok +ℤ pos refresh_skew)

  -- The cached token is not used for longer than the server takes it.
  abbrev pub IsHonest : CachedSource C → Type 0
  IsHonest src = (src.token ≡ []) ⊎ (src.expiry ≤ℤ expires src.token)

  pub expiry_at-le :
      (now e : ℤ) (deadline : ℤ)
      → (now +ℤ lifetime e) ≤ℤ (deadline +ℤ pos refresh_skew)
      → expiry_at now e ≤ℤ deadline
  unfolding expiry_at
  expiry_at-le now e deadline h = omega (
    arith,
    +ℤ_parts (now +ℤ lifetime e) (negsuc (refresh_skew - 1)),
    +ℤ_parts deadline (pos refresh_skew),
  )

  abbrev Refreshes : CachedSource C → Outcome Tokens → GoString → CachedSource C → Type 0
  Refreshes src reply tok src' =
      (src'.token ≡ tok)
      × (src'.expiry ≤ℤ expires tok)
      × ((t : Tokens) × (reply ≡ ok t) × (lookup src.instance_id t.auth ≡ some tok))

  stored_fresh :
      (src src' : CachedSource C) (t : Tokens) (tok : GoString) (o : Option GoString) (s : S)
      → lookup src.instance_id t.auth ≡ o
      → (lookup src.instance_id t.auth ≡ some tok
          → ((web.now s).0 +ℤ lifetime t.expires_in) ≤ℤ (expires tok +ℤ pos refresh_skew))
      → (stored_token lib web ctx src t o s).0 ≡ (ok tok, src')
      → Refreshes src (ok t) tok src'
  stored_fresh src src' t tok none s e prompt h = absurd cc
  stored_fresh src src' t tok (some found) s e prompt h =
      let same : found ≡ tok = cc in
      let now = (web.now s).0 in
      let state : record src { token = found; expiry = expiry_at now t.expires_in } ≡ src' =
        ap (λ r. r.1) h in
      (
        ap (λ c. c.token) (sym state) ∙ same,
        subst (λ x. x ≤ℤ expires tok) (ap (λ c. c.expiry) state)
            (expiry_at-le now t.expires_in (expires tok) (prompt (e ∙ ap some same))),
        (t, refl, e ∙ ap some same),
      )

  refreshed_fresh :
      (src src' : CachedSource C) (reply : Outcome Tokens) (tok : GoString) (s : S)
      → ((t : Tokens)
          → reply ≡ ok t
          → lookup src.instance_id t.auth ≡ some tok
          → ((web.now s).0 +ℤ lifetime t.expires_in) ≤ℤ (expires tok +ℤ pos refresh_skew))
      → (refreshed lib web ctx src reply s).0 ≡ (ok tok, src')
      → Refreshes src reply tok src'
  refreshed_fresh src src' (fail err) tok s prompt h = absurd cc
  refreshed_fresh src src' (ok t) tok s prompt h =
      stored_fresh src src' t tok (lookup src.instance_id t.auth) s refl (prompt t refl) h

  -- A call that uses the cache, and one that does not.
  token_cached :
      (src : CachedSource C) (s : S)
      → is_empty src.token ≡ false
      → ltb_ℤ (web.now s).0 src.expiry ≡ true
      → (token lib web ctx src s).0 ≡ (ok src.token, src)
  unfolding token
  token_cached src s filled early = rw (filled, early) refl

  token_renews :
      (src : CachedSource C) (s : S)
      → (is_empty src.token ≡ true)
        ⊎ ((is_empty src.token ≡ false) × (ltb_ℤ (web.now s).0 src.expiry ≡ false))
      → (s' : S) × ((token lib web ctx src s).0
          ≡ (refreshed lib web ctx src (exchange_of src s').0 (exchange_of src s').1).0)
  unfolding token
  token_renews src s (inl empty) = (s, rw empty refl)
  token_renews src s (inr (filled, late)) = ((web.now s).1, rw (filled, late) refl)

  earlier : (now e d : ℤ) → ltb_ℤ now e ≡ true → e ≤ℤ d → ltb_ℤ now d ≡ true
  earlier now e d h k = ground arith

  Fresh : CachedSource C → CachedSource C → GoString → S → Type 0
  Fresh src src' tok s =
      (src'.token ≡ tok)
      × IsHonest src'
      × (((src' ≡ src) × (ltb_ℤ (web.now s).0 (expires tok) ≡ true))
          ⊎ ((s' : S) × (t : Tokens) × ((exchange_of src s').0 ≡ ok t)
              × (lookup src.instance_id t.auth ≡ some tok)))

  renewed :
      (src src' : CachedSource C) (tok : GoString) (s : S)
      → AnswersInTime
      → (is_empty src.token ≡ true)
        ⊎ ((is_empty src.token ≡ false) × (ltb_ℤ (web.now s).0 src.expiry ≡ false))
      → (token lib web ctx src s).0 ≡ (ok tok, src')
      → Fresh src src' tok s
  unfolding Fresh
  renewed src src' tok s prompt why h =
      let (s', same) = token_renews src s why in
      let (kept, early, (t, reply, found)) =
        refreshed_fresh src src' (exchange_of src s').0 tok (exchange_of src s').1
          (λ t. prompt src s' t tok) (sym same ∙ h) in
      (
        kept,
        inr (subst (λ x. src'.expiry ≤ℤ expires x) (sym kept) early),
        inr (s', t, reply, found),
      )

  cached :
      (src src' : CachedSource C) (tok : GoString) (s : S)
      → IsHonest src
      → src.token ≢ []
      → is_empty src.token ≡ false
      → ltb_ℤ (web.now s).0 src.expiry ≡ true
      → (token lib web ctx src s).0 ≡ (ok tok, src')
      → Fresh src src' tok s
  unfolding Fresh
  cached src src' tok s (inl none_cached) given filled early h = absurd (given none_cached)
  cached src src' tok s (inr honest) given filled early h =
      let whole = sym (token_cached src s filled early) ∙ h in
      let same : src.token ≡ tok = cc in
      let state : src ≡ src' = ap (λ r. r.1) whole in
      (
        ap (λ c. c.token) (sym state) ∙ same,
        subst IsHonest state (inr honest),
        inl (
          sym state,
          earlier (web.now s).0 src.expiry (expires tok) early
              (subst (λ x. src.expiry ≤ℤ expires x) same honest),
        ),
      )

  -- A token that `Token` returns is not stale. If the cached token is not used for longer than the
  -- server takes it, which holds again after the call, then the call returned the cached token
  -- before the server stopped taking it, or the token of an exchange that it made; and the token
  -- that it returned is the one that it leaves in the cache.
  pub token_fresh :
      (src src' : CachedSource C) (tok : GoString) (s : S)
      → AnswersInTime
      → IsHonest src
      → (token lib web ctx src s).0 ≡ (ok tok, src')
      → (src'.token ≡ tok)
        × IsHonest src'
        × (((src' ≡ src) × (ltb_ℤ (web.now s).0 (expires tok) ≡ true))
            ⊎ ((s' : S) × (t : Tokens) × ((exchange_of src s').0 ≡ ok t)
                × (lookup src.instance_id t.auth ≡ some tok)))
  unfolding Fresh
  token_fresh src src' tok s prompt honest h = elim (empty_cases src.token) [
    | inl (empty, _) ↦ renewed src src' tok s prompt (inl empty) h
    | inr (filled, given) ↦ elim (Bool-cases (ltb_ℤ (web.now s).0 src.expiry)) [
      | inl early ↦ cached src src' tok s honest given filled early h
      | inr late ↦ renewed src src' tok s prompt (inr (filled, late)) h
    ]
  ]
