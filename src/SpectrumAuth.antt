-- ===== src/SpectrumAuth.antt =====
-- examples/internal/spectrumauth/spectrumauth.go: the lines of a project and the selection of one
-- of them; Source has the exchange of credentials and the token source.
pub mod Selection
pub mod Source
pub mod Freshness
pub mod Connecting
pub mod Calls
use advanced_imessage_go.Prelude.{
  ℕ, zero, suc, ◌-◌, List, [], ◌∷◌, ◌++◌, map, Bool, true, false, not, ◌&&◌, Option, none, some,
  ◌==◌, length, if◌then◌else◌,
}
use advanced_imessage_go.Prelude.Int.{ℤ, pos, negsuc, ◌+ℤ◌, scale, ltb_ℤ, int64}
use advanced_imessage_go.Prelude.Text.{GoString, bytes, str_eq, is_empty, compare_str}
use advanced_imessage_go.Prelude.Header.{Dict, lookup}
use advanced_imessage_go.Prelude.Sort.{sort_func}
use advanced_imessage_go.Errors.Chain.{GoError, nil, opaque, wrapped}
use advanced_imessage_go.Transport.Runtime.{Action, Outcome, ok, fail, Context}

-- `tokens`; the entries of a map stand in the order in which an iteration meets them.
pub record Tokens : Type 0 where
  pub kind : GoString
  pub auth : Dict GoString
  pub numbers : Dict GoString
  pub expires_in : ℤ

-- The fields of the JSON response that are read.
pub record Envelope : Type 0 where
  pub succeed : Bool
  pub contents : Tokens

-- The text functions of the standard library: `url.PathEscape`, `strings.TrimSpace`, the verbs %q
-- and %d, and `json.Decoder`; `check_url` is the error of `http.NewRequestWithContext`.
pub record Library : Type 0 where
  pub path_escape : GoString → GoString
  pub trim_space : GoString → GoString
  pub quote : GoString → GoString
  pub decimal : ℕ → GoString
  pub decode : GoString → Outcome Envelope
  pub check_url : GoString → GoError

-- `m[k]`, with the zero value for a missing key.
abbrev pub get_or_empty : GoString → Dict GoString → GoString
get_or_empty k m = elim (lookup k m) [ none ↦ [] | some v ↦ v ]

abbrev pub failure : {A : Type 0} → GoString → Outcome A
failure text = fail (opaque (bytes "spectrumauth: " ++ text))

-- `strings.Join(parts, ", ")`
abbrev joined_by_comma : List GoString → GoString
joined_by_comma [] = []
joined_by_comma (part ∷ []) = part
joined_by_comma (part ∷ (q ∷ parts)) = part ++ (bytes ", " ++ joined_by_comma (q ∷ parts))

-- `describeLines`
unfoldable pub describe_lines : Tokens → GoString
describe_lines t =
    let describe : GoString → GoString = λ id.
      let number = get_or_empty id t.numbers in
      if is_empty number then id else id ++ (bytes " (" ++ (number ++ bytes ")")) in
    joined_by_comma (map describe (sort_func compare_str (map (λ entry. entry.0) t.auth)))

-- The first id that the loop over `t.Numbers` finds.
unfoldable pub id_of_number : GoString → Dict GoString → Option GoString
id_of_number want [] = none
id_of_number want ((id, number) ∷ rest) =
    if str_eq number want then some id else id_of_number want rest

module _ (lib : Library) where
  abbrev pub ambiguous : Tokens → Outcome GoString
  ambiguous t = failure (
      bytes "project has "
      ++ (lib.decimal (length t.auth)
          ++ (bytes " iMessage lines; pick one with Line or Instance: " ++ describe_lines t)))

  abbrev pub by_number : Option GoString → GoString → Tokens → Outcome GoString
  by_number (some id) want t = ok id
  by_number none want t = failure (
      bytes "no line with number "
      ++ (lib.quote want ++ (bytes "; available lines: " ++ describe_lines t)))

  abbrev pub only_line : Dict GoString → Tokens → Outcome GoString
  only_line ((id, token) ∷ []) t = ok id
  only_line _ t = ambiguous t

  -- `selectInstance`
  unfoldable pub select_instance : Tokens → GoString → GoString → Outcome GoString
  select_instance t want_instance want_line =
      if is_empty t.auth
      then failure (bytes "project has no dedicated iMessage lines")
      else if not (is_empty want_instance)
      then elim (lookup want_instance t.auth) [
        | some _ ↦ ok want_instance
        | none ↦ failure (
            bytes "instance "
            ++ (lib.quote want_instance
                ++ (bytes " not found; available lines: " ++ describe_lines t)))
      ]
      else if not (is_empty want_line)
      then by_number (id_of_number want_line t.numbers) want_line t
      else only_line t.auth t
