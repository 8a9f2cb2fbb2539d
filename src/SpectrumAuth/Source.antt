-- ===== src/SpectrumAuth/Source.antt =====
-- examples/internal/spectrumauth/spectrumauth.go: the exchange of project credentials for tokens,
-- the token source that refreshes itself, and `Connect`.
use advanced_imessage_go.Prelude.{
  ℕ, zero, suc, ◌-◌, [], ◌∷◌, ◌++◌, Bool, false, ◌&&◌, Option, none, some, ◌==◌, if◌then◌else◌,
}
use advanced_imessage_go.Prelude.Int.{ℤ, negsuc, ◌+ℤ◌, scale, ltb_ℤ, int64}
use advanced_imessage_go.Prelude.Text.{GoString, bytes, str_eq, is_empty}
use advanced_imessage_go.Prelude.Header.{lookup}
use advanced_imessage_go.Errors.Chain.{GoError, nil, opaque, wrapped}
use advanced_imessage_go.Transport.Runtime.{Action, Outcome, ok, fail, Context}
use advanced_imessage_go.SpectrumAuth.{
  Tokens, Envelope, Library, get_or_empty, failure, select_instance,
}

abbrev pub production_url : GoString
production_url = bytes "https://spectrum.photon.codes"

abbrev pub imsg_host_suffix : GoString
imsg_host_suffix = bytes ".imsg.photon.codes:443"

-- Nanoseconds: one second, and 60 s.
abbrev pub second : ℕ
second = 1000000000

abbrev pub refresh_skew : ℕ
refresh_skew = 60000000000

-- `Config`, over the type of HTTP clients.
pub record Config (C : Type 0) : Type 0 where
  pub project_id : GoString
  pub project_secret : GoString
  pub base_url : GoString
  pub line : GoString
  pub instance_id : GoString
  pub http_client : Option C

pub record Line : Type 0 where
  pub instance_id : GoString
  pub number : GoString
  pub address : GoString

-- A POST request with basic authentication and its `Accept` header.
pub record HttpRequest : Type 0 where
  pub url : GoString
  pub username : GoString
  pub password : GoString
  pub accept : GoString

pub record HttpResponse : Type 0 where
  pub status_code : ℕ
  pub status : GoString
  pub body : GoString

-- The HTTP client, `none` being the one with `httpTimeout`, and the clock.
pub record Web (C S : Type 0) : Type 0 where
  pub perform : Option C → Context → HttpRequest → Action S (Outcome HttpResponse)
  pub now : Action S ℤ

-- `strings.TrimRight(s, "/")`
unfoldable pub trim_slashes : GoString → GoString
trim_slashes [] = []
trim_slashes (c ∷ s) =
    let rest = trim_slashes s in if c == b'/' && is_empty rest then [] else c ∷ rest

-- `io.LimitReader(body, n)`
unfoldable pub limited : ℕ → GoString → GoString
limited zero s = []
limited (suc n) [] = []
limited (suc n) (c ∷ s) = c ∷ limited n s

-- `tokenSource`, with its cached token and the time until which that is used.
pub record CachedSource (C : Type 0) : Type 0 where
  pub project_id : GoString
  pub project_secret : GoString
  pub instance_id : GoString
  pub base_url : GoString
  pub http_client : Option C
  pub token : GoString
  pub expiry : ℤ

-- `time.Duration(expiresIn) * time.Second`, and the time after which a token is fetched anew.
abbrev pub lifetime : ℤ → ℤ
lifetime expires_in = int64 (scale second expires_in)

unfoldable pub expiry_at : ℤ → ℤ → ℤ
expiry_at now expires_in = (now +ℤ lifetime expires_in) +ℤ negsuc (refresh_skew - 1)

module _ (lib : Library) where
  -- The endpoint of the exchange.
  unfoldable pub endpoint : GoString → GoString → GoString
  unfolding trim_slashes
  endpoint base_url project_id =
      trim_slashes base_url
      ++ (bytes "/projects/" ++ (lib.path_escape project_id ++ bytes "/imessage/tokens"))

  abbrev decoded : Outcome Envelope → Outcome Tokens
  decoded (fail err) = fail (wrapped (bytes "spectrumauth: decoding token exchange response: ") err)
  decoded (ok out) =
      if out.succeed
      then ok out.contents
      else failure (bytes "token exchange: server reported failure")

  -- What `exchange` makes of the reply to its request.
  abbrev pub exchanged : Outcome HttpResponse → Outcome Tokens
  exchanged (fail err) = fail err
  exchanged (ok resp) =
      if resp.status_code == 200
      then decoded (lib.decode resp.body)
      else failure (
          bytes "token exchange: "
          ++ (resp.status ++ (bytes ": " ++ lib.trim_space (limited 4096 resp.body))))

  module _ {C S : Type 0} (web : Web C S) (ctx : Context) where
    unfoldable pub exchange : Option C → GoString → GoString → GoString → Action S (Outcome Tokens)
    unfolding endpoint limited
    exchange hc base_url project_id project_secret s =
        let url = endpoint base_url project_id in
        elim (lib.check_url url) [
          | nil ↦
              let (reply, s') =
                web.perform hc ctx
                  (record {
                    url = url;
                    username = project_id;
                    password = project_secret;
                    accept = bytes "application/json";
                  })
                  s in
              (exchanged reply, s')
          | err ↦ (fail err, s)
        ]

    -- The cached token is used if there is one and it is early enough.
    abbrev is_usable : CachedSource C → Action S Bool
    is_usable src s =
        if is_empty src.token
        then (false, s)
        else let (t, s') = web.now s in (ltb_ℤ t src.expiry, s')

    abbrev pub absent : GoString → GoError
    absent id = opaque (
        bytes "spectrumauth: instance "
        ++ (lib.quote id ++ bytes " absent from token exchange response"))

    -- The token of a response is cached.
    abbrev pub stored_token :
        CachedSource C → Tokens → Option GoString → Action S (Outcome GoString × CachedSource C)
    stored_token src t none s = ((fail (absent src.instance_id), src), s)
    stored_token src t (some token) s =
        let (now, s') = web.now s in
        ((ok token, record src { token = token; expiry = expiry_at now t.expires_in }), s')

    abbrev pub refreshed :
        CachedSource C → Outcome Tokens → Action S (Outcome GoString × CachedSource C)
    refreshed src (fail err) s = ((fail err, src), s)
    refreshed src (ok t) s = stored_token src t (lookup src.instance_id t.auth) s

    -- The method `Token`; the mutex puts the calls in a row.
    unfoldable pub token : CachedSource C → Action S (Outcome GoString × CachedSource C)
    unfolding exchange expiry_at
    token src s =
        let (usable, s₁) = is_usable src s in
        if usable
        then ((ok src.token, src), s₁)
        else let (reply, s₂) =
            exchange src.http_client src.base_url src.project_id src.project_secret s₁ in
          refreshed src reply s₂

    abbrev pub base_url_of : Config C → GoString
    base_url_of cfg = if is_empty cfg.base_url then production_url else cfg.base_url

    -- The source and the line for the selected instance; a missing token is the zero value.
    abbrev pub connected : Config C → Tokens → GoString → Action S (Outcome (CachedSource C × Line))
    connected cfg t id s =
        let (now, s') = web.now s in
        (
          ok (
            record {
              project_id = cfg.project_id;
              project_secret = cfg.project_secret;
              instance_id = id;
              base_url = base_url_of cfg;
              http_client = cfg.http_client;
              token = get_or_empty id t.auth;
              expiry = expiry_at now t.expires_in;
            },
            record {
              instance_id = id;
              number = get_or_empty id t.numbers;
              address = id ++ imsg_host_suffix;
            },
          ),
          s',
        )

    abbrev pub selected :
        Config C → Tokens → Outcome GoString → Action S (Outcome (CachedSource C × Line))
    selected cfg t (fail err) s = (fail err, s)
    selected cfg t (ok id) s = connected cfg t id s

    abbrev pub of_tokens : Config C → Outcome Tokens → Action S (Outcome (CachedSource C × Line))
    of_tokens cfg (fail err) s = (fail err, s)
    of_tokens cfg (ok t) s =
        if str_eq t.kind (bytes "dedicated")
        then selected cfg t (select_instance lib t cfg.instance_id cfg.line) s
        else (
          failure (
              bytes "expected a dedicated project, but the exchange returned " ++ lib.quote t.kind),
          s,
        )

    -- `Connect`
    unfoldable pub connect : Config C → Action S (Outcome (CachedSource C × Line))
    unfolding exchange expiry_at select_instance
    connect cfg s =
        if is_empty cfg.project_id
        then (failure (bytes "project ID is required"), s)
        else if is_empty cfg.project_secret
        then (failure (bytes "project secret is required"), s)
        else let (reply, s') =
            exchange cfg.http_client (base_url_of cfg) cfg.project_id cfg.project_secret s in
          of_tokens cfg reply s'
