-- ===== src/Transport/Dial/Streams.antt =====
-- What internal/transport/dial.go makes of streams.
use advanced_imessage_go.Prelude.{◌≡◌, refl, arith, false}
use advanced_imessage_go.Prelude.Text.{GoString, str_eq}
use advanced_imessage_go.Prelude.Header.{
  header_get, header_set, canonical_key, get-set_self, get-set_ne,
}
use advanced_imessage_go.Transport.Runtime.{
  Outcome, ok, fail, Context, StreamingFunc, StreamConn, Surroundings, Action, pure,
}
use advanced_imessage_go.Transport.Interceptors.{authorization_header, bearer, auth_streaming}
use advanced_imessage_go.Transport.Dial.{Config, interceptors_of, nest_streaming}

module _ {S : Type 0} (M R : Type 0) where
  -- All interceptors together act on streams as the authorization alone does.
  dial_streaming :
      {C : Type 0} (env : Surroundings S) (cfg : Config C) (next : StreamingFunc S)
      → nest_streaming (interceptors_of {M = M} {R = R} env cfg) next ≡ auth_streaming env next
  unfolding interceptors_of
  dial_streaming env cfg next = ground arith

-- What a stream's connection becomes, by the outcome of the token source: with a token its
-- authorization header is that bearer token and the header `h` is as it was; without one the
-- connection is as it was.
abbrev pub IsAuthorized : Outcome GoString → (h : GoString) → (before after : StreamConn) → Type 0
IsAuthorized (fail err) h before after = after ≡ before
IsAuthorized (ok tok) h before after =
    (header_get after.request_header authorization_header ≡ bearer tok)
    × (header_get after.request_header h ≡ header_get before.request_header h)

module _ {S : Type 0} (M R : Type 0) where
  -- What a stream gets on its way through all interceptors, whatever the configuration: the
  -- connection is opened once, with the context of the caller, and the token is asked for once and
  -- after that. Where there is a token, the connection has it as its bearer token, and every other
  -- header, the idempotency key too, is as it was opened with; where there is none, the connection
  -- is as it was opened. Nothing else is done: no retry and no deadline.
  pub stream-IsAuthorized :
      {C : Type 0} (env : Surroundings S) (cfg : Config C) (next : StreamingFunc S) (ctx : Context)
      (s : S) (h : GoString)
      → str_eq (canonical_key authorization_header) (canonical_key h) ≡ false
      → let opened = next ctx s in
        let found = env.token ctx opened.1 in
        let out = nest_streaming (interceptors_of {M = M} {R = R} env cfg) next ctx s in
        IsAuthorized found.0 h opened.0 out.0 × (out.1 ≡ found.1)
  unfolding auth_streaming
  stream-IsAuthorized env cfg next ctx s h apart =
      rw (dial_streaming M R env cfg next) (by_token (env.token ctx (next ctx s).1).0)
    where
      conn : StreamConn
      conn = (next ctx s).0

      by_token :
          (o : Outcome GoString)
          → let out =
              (elim o as (λ x. Action S StreamConn) [
                | fail _ ↦ pure conn
                | ok tok ↦ pure (record conn {
                  request_header = header_set conn.request_header authorization_header (bearer tok);
                })
              ])
                (env.token ctx (next ctx s).1).1 in
            IsAuthorized o h conn out.0 × (out.1 ≡ (env.token ctx (next ctx s).1).1)
      by_token (fail err) = (refl, refl)
      by_token (ok tok) = (
        (
          get-set_self conn.request_header authorization_header (bearer tok),
          get-set_ne conn.request_header authorization_header h (bearer tok) apart,
        ),
        refl,
      )
