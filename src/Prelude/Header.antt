-- ===== src/Prelude/Header.antt =====
-- `http.Header` and string maps: association lists, with the canonical keys of `net/textproto`.
use advanced_imessage_go.Prelude.Tests.{leb, ◌==◌, if◌then◌else◌}
use advanced_imessage_go.Prelude.Text.{GoString, bytes, str_eq, str_eq_iff, lower_byte}
use Prim.Native.Nat.{ℕ, ◌-◌}
use mathlib.Core.Path.{◌≡◌, refl}
use mathlib.Core.Bool.{Bool, true, false, ◌&&◌, ◌||◌}
use mathlib.Core.Option.{Option, none, some}
use mathlib.Core.List.{List, [], ◌∷◌}
use native.Mathlib.Omega.{arith}

-- A map with string keys; the first entry of a key counts.
abbrev pub Dict {ℓ} : Type ℓ → Type ℓ
Dict V = List (GoString × V)

module _ {ℓ} {V : Type ℓ} where
  unfoldable pub lookup : GoString → Dict V → Option V
  lookup k [] = none
  lookup k ((j, v) ∷ m) = if str_eq j k then some v else lookup k m

  -- `m[k] = v`
  unfoldable pub insert : GoString → V → Dict V → Dict V
  insert k v [] = (k, v) ∷ []
  insert k v ((j, w) ∷ m) = if str_eq j k then (k, v) ∷ m else (j, w) ∷ insert k v m

  pub lookup-insert :
      (k j : GoString) (v : V) (m : Dict V)
      → lookup j (insert k v m) ≡ (if str_eq k j then some v else lookup j m)
  unfolding lookup insert
  lookup-insert k j v [] = refl
  lookup-insert k j v ((i, w) ∷ m) =
      ground (arith, str_eq_iff k j, str_eq_iff i k, str_eq_iff i j, lookup-insert k j v m)

abbrev pub Header : Type 0
Header = Dict (List GoString)

is_alphanumeric : ℕ → Bool
is_alphanumeric c =
    (leb b'a' c && leb c b'z') || (leb b'A' c && leb c b'Z') || (leb b'0' c && leb c b'9')

is_one_of : GoString → ℕ → Bool
is_one_of [] c = false
is_one_of (d ∷ s) c = d == c || is_one_of s c

-- The bytes of an RFC 7230 token.
is_token_byte : ℕ → Bool
unfolding is_alphanumeric is_one_of
is_token_byte c = is_alphanumeric c || is_one_of (bytes "!#$%&'*+-.^_`|~") c

all_token_bytes : GoString → Bool
unfolding is_token_byte
all_token_bytes [] = true
all_token_bytes (c ∷ s) = is_token_byte c && all_token_bytes s

upper_byte : ℕ → ℕ
upper_byte c = if leb b'a' c && leb c b'z' then c - 32 else c

-- Upper case at the start and behind each dash, lower case elsewhere.
title_bytes : Bool → GoString → GoString
unfolding upper_byte lower_byte
title_bytes upper [] = []
title_bytes upper (c ∷ s) =
    (if upper then upper_byte c else lower_byte c) ∷ title_bytes (c == b'-') s

-- `textproto.CanonicalMIMEHeaderKey`: a key with any other byte is left alone.
unfoldable pub canonical_key : GoString → GoString
unfolding all_token_bytes title_bytes
canonical_key k = if all_token_bytes k then title_bytes true k else k

abbrev pub first_value : Option (List GoString) → GoString
first_value (some (v ∷ _)) = v
first_value _ = []

-- `h.Get(key)` and `h.Set(key, value)`
unfoldable pub header_get : Header → GoString → GoString
header_get h key = first_value (lookup (canonical_key key) h)

unfoldable pub header_set : Header → GoString → GoString → Header
header_set h key value = insert (canonical_key key) (value ∷ []) h

pub get-set_self : (h : Header) (k v : GoString) → header_get (header_set h k v) k ≡ v
unfolding header_get header_set
get-set_self h k v = ground (
  arith,
  lookup-insert (canonical_key k) (canonical_key k) (v ∷ []) h,
  str_eq_iff (canonical_key k) (canonical_key k),
)

pub get-set_ne :
    (h : Header) (k j v : GoString)
    → str_eq (canonical_key k) (canonical_key j) ≡ false
    → header_get (header_set h k v) j ≡ header_get h j
unfolding header_get header_set
get-set_ne h k j v ne = ground (arith, lookup-insert (canonical_key k) (canonical_key j) (v ∷ []) h)

canonical_retryable : canonical_key (bytes "x-retryable") ≡ bytes "X-Retryable"
unfolding canonical_key
canonical_retryable = refl
