-- ===== src/SpectrumAuth/Connecting.antt =====
-- What `Connect` of examples/internal/spectrumauth/spectrumauth.go returns.
use advanced_imessage_go.Prelude.{[], ◌++◌, none, some, ◌≡◌, ◌⊎◌}
use advanced_imessage_go.Prelude.Int.{ℤ}
use advanced_imessage_go.Prelude.Text.{GoString}
use advanced_imessage_go.Prelude.Header.{lookup}
use advanced_imessage_go.Transport.Runtime.{Outcome, ok, Context}
use advanced_imessage_go.SpectrumAuth.{Tokens, Library, select_instance, get_or_empty}
use advanced_imessage_go.SpectrumAuth.Source.{
  Web, CachedSource, expiry_at, Config, Line, connected, imsg_host_suffix, base_url_of,
}

-- The number of an instance in a response: its entry, or empty where there is none.
abbrev pub IsNumber : Tokens → GoString → GoString → Type 0
IsNumber t id number =
    (lookup id t.numbers ≡ some number) ⊎ ((lookup id t.numbers ≡ none) × (number ≡ []))

module _ {C S : Type 0} (lib : Library) (web : Web C S) (ctx : Context)
    (expires : GoString → ℤ) where
  -- The parts of a `Connect` that succeeds.
  Connects : Config C → Outcome Tokens → S → CachedSource C × Line → Type 0
  Connects cfg reply s r =
      (t : Tokens) × (id : GoString) × (reply ≡ ok t)
      × (select_instance lib t cfg.instance_id cfg.line ≡ ok id)
      × ((connected lib web ctx cfg t id s).0 ≡ ok r)

  abbrev made : Config C → Tokens → GoString → S → CachedSource C
  made cfg t id s = record {
    project_id = cfg.project_id;
    project_secret = cfg.project_secret;
    instance_id = id;
    base_url = base_url_of lib web ctx cfg;
    http_client = cfg.http_client;
    token = get_or_empty id t.auth;
    expiry = expiry_at (web.now s).0 t.expires_in;
  }

  abbrev line_of : Tokens → GoString → Line
  line_of t id = record {
    instance_id = id;
    number = get_or_empty id t.numbers;
    address = id ++ imsg_host_suffix;
  }
