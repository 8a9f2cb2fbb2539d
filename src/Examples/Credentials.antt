-- ===== src/Examples/Credentials.antt =====
-- Credentials of a project with two lines.
use mathlib.Core.Path.{subst}
use advanced_imessage_go.Prelude.{
  ℕ, [], ◌∷◌, true, false, none, some, ◌≡◌, ◌⊎◌, ◌↔◌, inl, refl, ap, arith,
}
use advanced_imessage_go.Prelude.Int.{ℤ, pos, ◌≤ℤ◌, ltb_ℤ, ◌+ℤ◌, scale, int64}
use advanced_imessage_go.Prelude.Text.{GoString, bytes, str_eq}
use advanced_imessage_go.Prelude.Header.{lookup}
use advanced_imessage_go.Errors.Chain.{nil}
use advanced_imessage_go.Transport.Runtime.{Outcome, ok, Context, Request, Surroundings}
use advanced_imessage_go.Transport.Retry.{Server}
use advanced_imessage_go.Transport.Dial
use advanced_imessage_go.SpectrumAuth.{Tokens, Library, select_instance, id_of_number}
use advanced_imessage_go.SpectrumAuth.Source.{
  refresh_skew, Config, Line, Web, CachedSource, lifetime, exchange, token, connect, production_url,
}
use advanced_imessage_go.SpectrumAuth.Selection.{IsSelected, select_instance_ok_iff}
use advanced_imessage_go.SpectrumAuth.Freshness.{exchange_of, AnswersInTime, IsHonest, token_fresh}
use advanced_imessage_go.SpectrumAuth.Calls.{SentFresh, NotSent, call_fresh}

abbrev tokens : Tokens
tokens = record {
  kind = bytes "dedicated";
  auth = (bytes "i1", bytes "t1") ∷ (bytes "i2", bytes "t2") ∷ [];
  numbers = (bytes "i1", bytes "+1") ∷ (bytes "i2", bytes "+2") ∷ [];
  expires_in = pos 3600;
}

abbrev lib : Library
lib = record {
  path_escape = λ s. s;
  trim_space = λ s. s;
  quote = λ s. s;
  decimal = λ n. [];
  decode = λ body. ok (record { succeed = true; contents = tokens });
  check_url = λ url. nil;
}

-- The clock stands still.
abbrev web : Web ℕ ℕ
web = record {
  perform = λ hc ctx req s. (ok (record { status_code = 200; status = []; body = [] }), s);
  now = λ s. (pos 0, s);
}

abbrev context : Context
context = record { deadline = none; scope = 0 }

-- Every token is taken for an hour.
abbrev an_hour : GoString → ℤ
an_hour tok = pos 3600000000000

answers_in_time : AnswersInTime lib web context an_hour
unfolding exchange int64 scale ◌+ℤ◌
answers_in_time src s t tok h found =
    let same : pos 3600 ≡ t.expires_in =
      ap (λ o. elim o [ ok x ↦ x.expires_in | Outcome.fail err ↦ pos 3600 ]) h in
    subst (λ e. (pos 0 +ℤ lifetime e) ≤ℤ (pos 3600000000000 +ℤ pos refresh_skew)) same (omega arith)

abbrev config : Config ℕ
config = record {
  project_id = bytes "p";
  project_secret = bytes "s";
  base_url = [];
  line = bytes "+2";
  instance_id = [];
  http_client = none;
}

abbrev second_line : Line
second_line = record {
  instance_id = bytes "i2";
  number = bytes "+2";
  address = bytes "i2.imsg.photon.codes:443";
}

-- The source for the second line, with the given token and the time until which it is used.
abbrev source : GoString → ℤ → CachedSource ℕ
source tok e = record {
  project_id = bytes "p";
  project_secret = bytes "s";
  instance_id = bytes "i2";
  base_url = production_url;
  http_client = none;
  token = tok;
  expiry = e;
}

abbrev cached : CachedSource ℕ
cached = source (bytes "t2") (pos 3540000000000)

connected : (connect lib web context config 0).0 ≡ ok (cached, second_line)
unfolding connect lookup str_eq id_of_number ◌+ℤ◌ int64 scale
connected = refl

renewed : (token lib web context (source [] (pos 0)) 0).0 ≡ (ok (bytes "t2"), cached)
unfolding token lookup str_eq ◌+ℤ◌ int64 scale
renewed = refl

token_fresh_example :
    (bytes "t2" ≡ bytes "t2")
    × IsHonest lib web context an_hour cached
    × (((cached ≡ source [] (pos 0)) × (ltb_ℤ (pos 0) (an_hour (bytes "t2")) ≡ true))
        ⊎ ((s' : ℕ) × (t : Tokens) × ((exchange_of lib web context an_hour (source [] (pos 0)) s').0
              ≡ ok t)
            × (lookup (bytes "i2") t.auth ≡ some (bytes "t2"))))
token_fresh_example =
    token_fresh lib web context an_hour (source [] (pos 0)) cached (bytes "t2") 0 answers_in_time
      (inl refl) renewed

select_instance_ok_iff_example :
    (select_instance lib tokens [] (bytes "+2") ≡ ok (bytes "i2"))
    ↔ IsSelected tokens [] (bytes "+2") (bytes "i2")
select_instance_ok_iff_example = select_instance_ok_iff lib tokens [] (bytes "+2") (bytes "i2")

abbrev surroundings : Surroundings (CachedSource ℕ × ℕ)
surroundings = record {
  token = λ ctx s. (ok [], s);
  new_key = λ s. (bytes "key", s);
  jitter = λ d s. (d, s);
  wait = λ ctx d s. (true, s);
  context_error = λ ctx s. nil;
  with_timeout = λ ctx d s. (ctx, s);
  new_error = λ code err. err;
}

abbrev dialed : Dial.Config ℕ
dialed = record {
  address = bytes "i2.imsg.photon.codes:443";
  insecure = false;
  timeout = pos 0;
  retry_enabled = false;
  retry = record { max_attempts = pos 4; initial_delay = pos 1; max_delay = pos 2 };
  auto_idempotency = true;
  http_client = none;
}

abbrev send : Request ℕ
send = record { procedure = bytes "/send"; header = []; message = 7 }

abbrev server : Server ℕ ℕ (CachedSource ℕ × ℕ)
server = record { replies = ok 5 ∷ []; seen = []; rest = (source [] (pos 0), 0) }

call_fresh_example :
    SentFresh lib web an_hour surroundings dialed context send server
    ⊎ NotSent lib web an_hour surroundings dialed context send server
call_fresh_example =
    call_fresh lib web an_hour surroundings dialed context send server answers_in_time (inl refl)
