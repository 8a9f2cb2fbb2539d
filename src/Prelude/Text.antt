-- ===== src/Prelude/Text.antt =====
-- Go's `string` and `[]byte`: sequences of bytes, with the equality, order and prefix tests of the
-- language and of packages `cmp` and `strings`.
use Prim.Native.Char.{code}
use Prim.Native.String.{String}
use Prim.Native.Nat.{ℕ, ◌+◌, compare, Ordering}
use mathlib.Core.Path.{◌≡◌, refl}
use mathlib.Core.Logic.{◌↔◌, ◌≢◌, ◌⊎◌, inl, inr}
use mathlib.Core.Bool.{Bool, true, false, ◌&&◌}
use mathlib.Core.Option.{Option, none, some}
use mathlib.Core.List.{List, [], ◌∷◌, ◌++◌, map}
use native.Mathlib.Omega.{arith}
use advanced_imessage_go.Prelude.Tests.{◌==◌, leb, if◌then◌else◌}

abbrev pub GoString : Type 0
GoString = List ℕ

-- The bytes of an ASCII literal.
abbrev pub bytes : String → GoString
bytes String.[] = []
bytes (String.◌∷◌ c s) = code c ∷ bytes s

unfoldable pub str_eq : GoString → GoString → Bool
str_eq [] [] = true
str_eq [] (_ ∷ _) = false
str_eq (_ ∷ _) [] = false
str_eq (a ∷ s) (b ∷ t) = (a == b) && str_eq s t

pub str_eq-true : (s t : GoString) → str_eq s t ≡ true → s ≡ t
unfolding str_eq
str_eq-true [] [] h = refl
str_eq-true [] (b ∷ t) h = cc
str_eq-true (a ∷ s) [] h = cc
str_eq-true (a ∷ s) (b ∷ t) h = ground (arith, str_eq-true s t)

pub str_eq_refl : (s : GoString) → str_eq s s ≡ true
unfolding str_eq
str_eq_refl [] = refl
str_eq_refl (a ∷ s) = ground (arith, str_eq_refl s)

pub str_eq_iff : (s t : GoString) → (str_eq s t ≡ true) ↔ (s ≡ t)
str_eq_iff s t = (str_eq-true s t, λ e. rw e (str_eq_refl t))

-- `s == ""`
abbrev pub is_empty {ℓ} : {A : Type ℓ} → List A → Bool
is_empty [] = true
is_empty (_ ∷ _) = false

pub empty_cases {ℓ} :
    {A : Type ℓ} (l : List A) → ((is_empty l ≡ true) × (l ≡ [])) ⊎ ((is_empty l ≡ false) × (l ≢ []))
empty_cases [] = inl (refl, refl)
empty_cases (x ∷ l) = inr (refl, λ e. cc)

-- `cmp.Compare` on strings: byte-wise lexicographic order.
unfoldable pub compare_str : GoString → GoString → Ordering
compare_str [] [] = Ordering.eq
compare_str [] (_ ∷ _) = Ordering.lt
compare_str (_ ∷ _) [] = Ordering.gt
compare_str (a ∷ s) (b ∷ t) =
    let rest = compare_str s t in
    elim (compare a b) [
      | Ordering.lt ↦ Ordering.lt
      | Ordering.eq ↦ rest
      | Ordering.gt ↦ Ordering.gt
    ]

-- `strings.ToLower` on ASCII bytes.
unfoldable pub lower_byte : ℕ → ℕ
lower_byte c = if leb b'A' c && leb c b'Z' then c + 32 else c

unfoldable pub to_lower : GoString → GoString
unfolding lower_byte
to_lower s = map lower_byte s

-- The rest of `s` behind the prefix `p`: `strings.HasPrefix` and `strings.TrimPrefix` together.
unfoldable pub strip_prefix : GoString → GoString → Option GoString
strip_prefix [] s = some s
strip_prefix (p ∷ ps) [] = none
strip_prefix (p ∷ ps) (c ∷ s) = if p == c then strip_prefix ps s else none

pub strip_prefix_lem :
    (p s : GoString) {rest : GoString} → strip_prefix p s ≡ some rest → s ≡ p ++ rest
unfolding strip_prefix
strip_prefix_lem [] s h = cc
strip_prefix_lem (p ∷ ps) [] h = cc
strip_prefix_lem (p ∷ ps) (c ∷ s) {rest} h = ground (arith, strip_prefix_lem ps s {rest = rest})
