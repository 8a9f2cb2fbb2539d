-- ===== src/Examples/Clients.antt =====
-- Options and the client that they make.
use advanced_imessage_go.Prelude.{ℕ, suc, List, [], ◌∷◌, ◌++◌, true, false, none, some, ◌≡◌, refl}
use advanced_imessage_go.Prelude.Text.{bytes}
use advanced_imessage_go.Prelude.Int.{pos}
use advanced_imessage_go.Errors.Chain.{canceled, connect_error}
use advanced_imessage_go.Transport.Runtime.{ok, Context, Request, Surroundings}
use advanced_imessage_go.Transport.Retry.{Server, lift_surroundings}
use advanced_imessage_go.Client.{
  default_config, default_retry, RetryOption, with_max_attempts, with_max_delay, ClientOption,
  without_tls, with_timeout, with_retry, apply_options, static_token, Client, connect,
}
use advanced_imessage_go.Client.Options.{
  any, is_with_retry, RetryResolves, OptionsResolve, apply_options-OptionsResolve, with_retry_once,
}

abbrev options : List (ClientOption ℕ)
options = with_timeout (pos 5) ∷ without_tls ∷ with_timeout (pos 9) ∷ []

apply_options-OptionsResolve_example :
    OptionsResolve options default_config (apply_options options default_config)
apply_options-OptionsResolve_example = apply_options-OptionsResolve options default_config

abbrev retry_options : List RetryOption
retry_options =
    with_max_attempts (pos 7) ∷ with_max_delay (pos 1000) ∷ with_max_attempts (pos 2) ∷ []

no_retry : any (is_with_retry {C = ℕ}) options ≡ false
unfolding any
no_retry = refl

with_retry_once_example :
    RetryResolves retry_options default_retry
      (apply_options (options ++ with_retry retry_options ∷ options) default_config).retry
with_retry_once_example = with_retry_once options options retry_options no_retry no_retry

abbrev surroundings : Surroundings ℕ
surroundings = record {
  token = λ ctx n. (ok [], n);
  new_key = λ n. (bytes "key", suc n);
  jitter = λ d n. (d, n);
  wait = λ ctx d n. (true, n);
  context_error = λ ctx n. canceled;
  with_timeout = λ ctx d n. (record ctx { deadline = some d }, n);
  new_error = λ c e. connect_error c [] [] e;
}

abbrev client : Client ℕ (Server ℕ ℕ ℕ) ℕ ℕ
client =
    connect (lift_surroundings surroundings) (bytes "host:443") (static_token (bytes "secret"))
      (apply_options options default_config)

abbrev context : Context
context = record { deadline = none; scope = 0 }

abbrev send : Request ℕ
send = record {
  procedure = bytes "/photon.imessage.v1.ChatService/CreateChat";
  header = [];
  message = 42;
}

abbrev server : Server ℕ ℕ ℕ
server = record { replies = ok 5 ∷ []; seen = []; rest = 0 }
