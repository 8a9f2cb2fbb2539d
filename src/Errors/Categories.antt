-- ===== src/Errors/Categories.antt =====
-- What callers of errors.go can rely on: which error a failed call returns, and which of the
-- category helpers and codes match it.
use advanced_imessage_go.Prelude.{
  [], true, false, ◌||◌, none, some, if◌then◌else◌, ◌≡◌, ◌≢◌, ◌↔◌, ◌⊎◌, refl, ap, ◌∙◌, arith, inl,
  inr, Bool-cases, Option-cases,
}
use advanced_imessage_go.Prelude.Text.{bytes, str_eq}
use advanced_imessage_go.Prelude.Header.{header_get, canonical_key}
use advanced_imessage_go.Errors.Codes
use advanced_imessage_go.Errors.Codes.{
  Code, ConnectCode, class_of, class_number, code_timeout, code_network_error,
}
use advanced_imessage_go.Errors.Chain.{
  Error, GoError, nil, imessage, connect_error, deadline_exceeded, canceled, opaque, wrapped,
  joined, ConnectText, error_is, errors_is, is_deadline_exceeded, is_canceled, as_imessage,
  ConnectError, as_connect,
}
use advanced_imessage_go.Errors.Convert.{
  context_error, err_authentication, err_not_found, err_rate_limited, err_validation,
  err_connection, is_authentication, is_not_found, is_rate_limited, is_validation, is_connection,
  is_retryable, code_of, first_meta, from_connect, from_context, from_parts, as_error,
}

-- Without an `Error` in the chain nothing matches an `Error` target.
errors_is-none : (err : GoError) (t : Error) → as_imessage err ≡ none → errors_is err t ≡ false
unfolding errors_is as_imessage
errors_is-none nil t h = refl
errors_is-none (imessage e c) t h = cc
errors_is-none (connect_error _ _ _ c) t h = errors_is-none c t h
errors_is-none deadline_exceeded t h = refl
errors_is-none canceled t h = refl
errors_is-none (opaque _) t h = refl
errors_is-none (wrapped _ c) t h = errors_is-none c t h
errors_is-none (joined a b) t h = ground (arith, errors_is-none a t, errors_is-none b t)

-- Each helper is true for exactly the statuses of its class.
pub record HasCategories (err : GoError) (c : ConnectCode) : Type 0 where
  pub authentication :
      (is_authentication err ≡ true) ↔ ((c ≡ Codes.unauthenticated) ⊎ (c ≡ Codes.permission_denied))
  pub not_found : (is_not_found err ≡ true) ↔ (c ≡ Codes.not_found)
  pub rate_limited : (is_rate_limited err ≡ true) ↔ (c ≡ Codes.resource_exhausted)
  pub validation :
      (is_validation err ≡ true) ↔ ((c ≡ Codes.invalid_argument) ⊎ (c ≡ Codes.failed_precondition))
  pub connection :
      (is_connection err ≡ true)
      ↔ ((c ≡ Codes.unavailable) ⊎ (c ≡ Codes.deadline_exceeded) ⊎ (c ≡ Codes.canceled))

-- An `Error` whose cause matches nothing is matched by its own status alone.
imessage-HasCategories :
    (e : Error) (cause : GoError)
    → ((t : Error) → errors_is cause t ≡ false)
    → HasCategories (imessage e cause) e.connect_code
unfolding is_authentication is_not_found is_rate_limited is_validation is_connection errors_is
    error_is class_of
imessage-HasCategories e cause h = record {
  authentication =
      (λ k. ground (arith, h err_authentication), λ k. ground (arith, h err_authentication));
  not_found = (λ k. ground (arith, h err_not_found), λ k. ground (arith, h err_not_found));
  rate_limited = (λ k. ground (arith, h err_rate_limited), λ k. ground (arith, h err_rate_limited));
  validation = (λ k. ground (arith, h err_validation), λ k. ground (arith, h err_validation));
  connection = (λ k. ground (arith, h err_connection), λ k. ground (arith, h err_connection));
}

module _ ⦃ct : ConnectText⦄ where
  as_error_lem : (err : GoError) → as_error err ≡ from_parts (as_imessage err) (as_connect err) err
  unfolding as_error as_imessage as_connect is_deadline_exceeded is_canceled
  as_error_lem nil = refl
  as_error_lem _ = refl

  -- What a Connect error with no `Error` in its chain becomes.
  as_error-connect :
      (err : GoError) {ce : ConnectError}
      → as_imessage err ≡ none
      → as_connect err ≡ some ce
      → as_error err ≡ imessage (from_connect ce) err
  as_error-connect err h k = as_error_lem err ∙ rw (h, k)

  as_error-found :
      (err : GoError) {e : Error} {cause : GoError}
      → as_imessage err ≡ some (e, cause)
      → as_error err ≡ imessage e cause
  as_error-found err h = as_error_lem err ∙ rw h

  as_error-plain :
      (err : GoError)
      → as_imessage err ≡ none
      → as_connect err ≡ none
      → as_error err ≡ from_context err
  as_error-plain err h k = as_error_lem err ∙ rw (h, k)

  -- The result is an `Error`, or the value itself.
  as_error_shape :
      (err : GoError)
      → ((e : Error) × (cause : GoError) × (as_error err ≡ imessage e cause)) ⊎ (as_error err ≡ err)
  unfolding from_context
  as_error_shape err = elim (Option-cases (as_imessage err)) [
    | inr (found, h) ↦ inl (found.0, found.1, as_error-found err h)
    | inl h ↦ elim (Option-cases (as_connect err)) [
      | inr (ce, k) ↦ inl (from_connect ce, err, as_error-connect err h k)
      | inl k ↦ elim (Bool-cases (is_deadline_exceeded err)) [
        | inl d ↦ inl (
          context_error code_timeout Codes.deadline_exceeded err,
          err,
          as_error-plain err h k ∙ rw d,
        )
        | inr d ↦ elim (Bool-cases (is_canceled err)) [
          | inl c ↦ inl (
            context_error code_network_error Codes.canceled err,
            err,
            as_error-plain err h k ∙ rw (d, c),
          )
          | inr c ↦ inr (as_error-plain err h k ∙ rw (d, c))
        ]
      ]
    ]
  ]

  -- Converting an error with `asError` twice is converting it once.
  pub as_error_idem : (err : GoError) → as_error (as_error err) ≡ as_error err
  unfolding as_imessage
  as_error_idem err = elim (as_error_shape err) [
    | inl (e, cause, p) ↦ rw p (as_error-found (imessage e cause) refl)
    | inr p ↦ ap as_error p
  ]

  -- `asError` gives nil exactly for nil: a failed call stays failed, and success stays success.
  pub as_error-nil_iff : (err : GoError) → (as_error err ≡ nil) ↔ (err ≡ nil)
  unfolding as_error
  as_error-nil_iff err = elim (as_error_shape err) [
    | inl (e, cause, p) ↦ (λ h. cc, λ h. ap as_error h)
    | inr p ↦ (λ h. cc, λ h. ap as_error h)
  ]

  -- A failed call that the server or the Connect runtime answered with a status, and with no
  -- `Error` inside: each category helper is true for exactly the statuses of its class.
  pub as_error-HasCategories :
      (err : GoError) {ce : ConnectError}
      → as_imessage err ≡ none
      → as_connect err ≡ some ce
      → HasCategories (as_error err) ce.code
  unfolding from_connect
  as_error-HasCategories err {ce} h k =
      rw (as_error-connect err h k)
        (imessage-HasCategories (from_connect ce) err (λ t. errors_is-none err t h))

  -- A failed call with a Connect status and no `Error` in its chain is retryable exactly when the
  -- metadata says "true" under the header that the retry interceptor reads, and an `Error` with a
  -- code matches it exactly if that is the code of `CodeOf`.
  pub as_error_details :
      (err : GoError) {ce : ConnectError} (t : Error)
      → as_imessage err ≡ none
      → as_connect err ≡ some ce
      → t.code ≢ []
      → (is_retryable (as_error err)
          ≡ str_eq (header_get ce.meta (bytes "X-Retryable")) (bytes "true"))
        × (errors_is (as_error err) t ≡ str_eq (code_of (as_error err)) t.code)
  unfolding is_retryable code_of as_imessage from_connect first_meta header_get canonical_key
      errors_is error_is
  as_error_details err {ce} t h k n =
      rw (as_error-connect err h k) (refl, ground (arith, errors_is-none err t h))

  -- A raw context error, with no status and no `Error` in its chain, becomes a connection error: a
  -- passed deadline has the code "timeout", a cancellation without one "networkError".
  pub as_error_context :
      (err : GoError)
      → as_imessage err ≡ none
      → as_connect err ≡ none
      → (is_deadline_exceeded err || is_canceled err) ≡ true
      → (is_connection (as_error err) ≡ true)
        × (code_of (as_error err)
            ≡ (if is_deadline_exceeded err then code_timeout else code_network_error))
  unfolding from_context is_connection code_of as_imessage errors_is error_is class_of
  as_error_context err h k raw =
      rw (as_error-plain err h k) (elim (Bool-cases (is_deadline_exceeded err)) [
        | inl d ↦ rw d (refl, refl)
        | inr d ↦ rw (d, raw_canceled d) (refl, refl)
      ])
    where
      raw_canceled : is_deadline_exceeded err ≡ false → is_canceled err ≡ true
      raw_canceled d = ground arith

  -- An error with no status, no `Error` and no context error in its chain comes through unchanged.
  pub as_error_other :
      (err : GoError)
      → as_imessage err ≡ none
      → as_connect err ≡ none
      → (is_deadline_exceeded err || is_canceled err) ≡ false
      → as_error err ≡ err
  unfolding from_context
  as_error_other err h k raw = as_error-plain err h k ∙ ground arith
