-- ===== src/Client/Calls.antt =====
-- When `New` of client.go fails, and what a client with a static token sends.
use mathlib.Core.Path.{subst}
use advanced_imessage_go.Prelude.{
  List, [], ◌∷◌, true, Option, none, some, ◌≡◌, ◌↔◌, ◌⊎◌, inl, inr, refl,
}
use advanced_imessage_go.Prelude.Text.{GoString}
use advanced_imessage_go.Errors.Codes.{code_invalid_argument, class_of}
use advanced_imessage_go.Errors.Chain.{GoError, errors_is, error_is, as_imessage}
use advanced_imessage_go.Errors.Convert.{is_validation, code_of}
use advanced_imessage_go.Transport.Runtime.{Surroundings}
use advanced_imessage_go.Transport.Retry.{Server, lift_surroundings}
use advanced_imessage_go.Transport.Dial.{Config}
use advanced_imessage_go.Client.{
  default_config, ClientOption, apply_options, transport_config, TokenSource, static_token, Client,
  NewResult, refused, invalid_argument, new,
}

pub invalid_argument-is_validation :
    (message : GoString)
    → (is_validation (invalid_argument message) ≡ true)
      × (code_of (invalid_argument message) ≡ code_invalid_argument)
unfolding is_validation code_of errors_is error_is as_imessage class_of
invalid_argument-is_validation message = (refl, refl)

refused_validation :
    {A : Type 0} (message : GoString) (err : GoError) (r : NewResult A)
    → r ≡ refused (invalid_argument message)
    → r ≡ refused err
    → (is_validation err ≡ true) × (code_of err ≡ code_invalid_argument)
refused_validation message err r e h =
    let same : invalid_argument message ≡ err = cc in
    subst (λ e. (is_validation e ≡ true) × (code_of e ≡ code_invalid_argument)) same
      (invalid_argument-is_validation message)

module _ {C S M R : Type 0} (env : Surroundings S) where
  -- `New` fails exactly if the address is empty or there is no token source.
  pub new_refused_iff :
      (address : GoString) (src : Option (TokenSource S)) (opts : List (ClientOption C))
      → ((err : GoError) × (new {C = C} {M = M} {R = R} env address src opts ≡ refused err))
        ↔ ((address ≡ []) ⊎ (src ≡ none))
  unfolding new
  new_refused_iff [] src opts = (λ h. inl refl, λ h. (_, refl))
  new_refused_iff (b ∷ address) none opts = (λ h. inr refl, λ h. (_, refl))
  new_refused_iff (b ∷ address) (some src) opts =
      ((λ (err, h). cc), λ h. elim h [ inl e ↦ cc | inr e ↦ cc ])

  -- The error of `New` is a validation error with the code "invalidArgument".
  pub new_refused_validation :
      (address : GoString) (src : Option (TokenSource S)) (opts : List (ClientOption C))
      (err : GoError)
      → new {C = C} {M = M} {R = R} env address src opts ≡ refused err
      → (is_validation err ≡ true) × (code_of err ≡ code_invalid_argument)
  unfolding new
  new_refused_validation [] src opts err h = refused_validation _ err _ refl h
  new_refused_validation (b ∷ address) none opts err h = refused_validation _ err _ refl h
  new_refused_validation (b ∷ address) (some src) opts err h = cc

abbrev pub config_of : {C : Type 0} → GoString → List (ClientOption C) → Config C
config_of address opts = transport_config address (apply_options opts default_config)

module _ {C M R T : Type 0} (env : Surroundings T) where
  -- The client that `New` makes of an address, a static token and options.
  abbrev pub client_of :
      GoString → GoString → List (ClientOption C) → NewResult (Client C (Server M R T) M R)
  client_of address tok opts = new (lift_surroundings env) address (some (static_token tok)) opts
