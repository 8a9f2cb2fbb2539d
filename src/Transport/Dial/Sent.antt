-- ===== src/Transport/Dial/Sent.antt =====
-- The headers of one request: the bearer token of internal/transport/interceptor.go and the
-- idempotency key, which do not disturb each other.
use advanced_imessage_go.Prelude.{ℕ, ◌≡◌, refl, arith, Bool, false, ◌&&◌, if◌then◌else◌}
use advanced_imessage_go.Prelude.Text.{GoString, str_eq, is_empty}
use advanced_imessage_go.Prelude.Header.{
  header_get, header_set, get-set_self, get-set_ne, canonical_key,
}
use advanced_imessage_go.Transport.Runtime.{Request, Surroundings}
use advanced_imessage_go.Transport.Interceptors.{
  authorization_header, idempotency_header, is_mutating, attempts_of, set_header, bearer,
}
use advanced_imessage_go.Transport.Dial.{Config}

module _ {M T : Type 0} (env : Surroundings T) where
  -- The request with a fresh idempotency key, where it wants one and has none.
  abbrev pub with_key : Bool → T → Request M → Request M
  with_key auto t req =
      if auto && (is_mutating req.procedure && is_empty (header_get req.header idempotency_header))
      then set_header req idempotency_header (env.new_key t).0
      else req

-- What the server gets of a request `req` that is sent with the token `tok`.
pub record IsSent {M C : Type 0} (cfg : Config C) (req : Request M) (tok : GoString)
    (key : GoString) (sent : Request M) : Type 0 where
  pub procedure_kept : sent.procedure ≡ req.procedure
  pub message_kept : sent.message ≡ req.message
  pub authorized : header_get sent.header authorization_header ≡ bearer tok
  pub keyed : header_get sent.header idempotency_header ≡ (
      if cfg.auto_idempotency
        && (is_mutating req.procedure && is_empty (header_get req.header idempotency_header))
      then key
      else header_get req.header idempotency_header)

-- How often a request is sent at most.
abbrev pub most_sent : {C : Type 0} → Config C → ℕ
most_sent cfg = if cfg.retry_enabled then attempts_of cfg.retry else 1

-- The two headers have different canonical keys.
idempotency_ne_authorization :
    str_eq (canonical_key idempotency_header) (canonical_key authorization_header) ≡ false
unfolding canonical_key str_eq
idempotency_ne_authorization = refl

authorization_ne_idempotency :
    str_eq (canonical_key authorization_header) (canonical_key idempotency_header) ≡ false
unfolding canonical_key str_eq
authorization_ne_idempotency = refl

-- The request with its token and its key is what the server should get.
pub with_key-IsSent :
    {M C T : Type 0} (env : Surroundings T) (cfg : Config C) (req : Request M) (tok : GoString)
    (t : T)
    → IsSent cfg req tok
        (env.new_key t).0
        (with_key env cfg.auto_idempotency t (set_header req authorization_header (bearer tok)))
with_key-IsSent env cfg req tok t = record {
  procedure_kept = ground arith;
  message_kept = ground arith;
  authorized = ground (arith, authorized_once, authorized_still);
  keyed = ground (arith, unkeyed, rekeyed);
}
  where
    authorized_once :
        header_get (header_set req.header authorization_header (bearer tok)) authorization_header
        ≡ bearer tok
    authorized_once = get-set_self req.header authorization_header (bearer tok)

    authorized_still :
        header_get
          (header_set
            (header_set req.header authorization_header (bearer tok))
            idempotency_header
            (env.new_key t).0)
          authorization_header
        ≡ header_get (header_set req.header authorization_header (bearer tok)) authorization_header
    authorized_still =
        get-set_ne (header_set req.header authorization_header (bearer tok)) idempotency_header
          authorization_header (env.new_key t).0 idempotency_ne_authorization

    unkeyed :
        header_get (header_set req.header authorization_header (bearer tok)) idempotency_header
        ≡ header_get req.header idempotency_header
    unkeyed =
        get-set_ne req.header authorization_header idempotency_header (bearer tok)
          authorization_ne_idempotency

    rekeyed :
        header_get
          (header_set
            (header_set req.header authorization_header (bearer tok))
            idempotency_header
            (env.new_key t).0)
          idempotency_header
        ≡ (env.new_key t).0
    rekeyed =
        get-set_self (header_set req.header authorization_header (bearer tok)) idempotency_header
          (env.new_key t).0
