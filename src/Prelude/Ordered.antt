-- ===== src/Prelude/Ordered.antt =====
-- The orders that `slices.SortFunc` is asked for, said without a comparison function.
use Prim.Native.Nat.{◌<◌, compare, Ordering}
use mathlib.Core.Path.{◌≡◌, refl, ap}
use mathlib.Core.Logic.{◌≢◌, ◌⊎◌, inl, inr}
use mathlib.Core.List.{List, [], ◌∷◌}
use native.Mathlib.Omega.{arith}
use advanced_imessage_go.Prelude.Lists.{All, All-imp}
use advanced_imessage_go.Prelude.Text.{GoString, compare_str}
use advanced_imessage_go.Prelude.Int.{ℤ, pos, negsuc, ◌≤ℤ◌}
use advanced_imessage_go.Prelude.Sort.{and_then, IsSorted}
use advanced_imessage_go.Prelude.Order.{compare_ℤ, compare_str-eq}

-- The lexicographic order of bytes: at the first difference the smaller byte comes first, and a
-- prefix comes before what it is a prefix of.
abbrev pub StrLe : GoString → GoString → Type 0
StrLe [] t = Unit
StrLe (a ∷ s) [] = ⊥
StrLe (a ∷ s) (b ∷ t) = (a < b) ⊎ ((a ≡ b) × StrLe s t)

-- Of two pairs of a time and a string, the one of the earlier time comes first, and at one time
-- that of the smaller string.
abbrev pub StampLe : (time : ℤ) → GoString → (time' : ℤ) → GoString → Type 0
StampLe time s time' s' = ((time ≤ℤ time') × (time ≢ time')) ⊎ ((time ≡ time') × StrLe s s')

-- Of two pairs of strings, the one with the smaller first string, and then the smaller second one.
abbrev pub PairLe : (a s a' s' : GoString) → Type 0
PairLe a s a' s' = (StrLe a a' × (a ≢ a')) ⊎ ((a ≡ a') × StrLe s s')

-- Each element is related to each later one.
abbrev pub IsOrdered {ℓ κ} : {A : Type ℓ} → (A → A → Type κ) → List A → Type κ
IsOrdered R [] = Unit
IsOrdered R (x ∷ xs) = All (R x) xs × IsOrdered R xs

pub IsSorted-IsOrdered {ℓ κ} :
    {A : Type ℓ} (cmp : A → A → Ordering) (R : A → A → Type κ)
    → ((a b : A) → cmp a b ≢ Ordering.gt → R a b)
    → (l : List A) → IsSorted cmp l
    → IsOrdered R l
IsSorted-IsOrdered cmp R f [] h = tt
IsSorted-IsOrdered cmp R f (x ∷ xs) h =
    (All-imp (λ y. cmp x y ≢ Ordering.gt) (R x) xs (f x) h.0, IsSorted-IsOrdered cmp R f xs h.1)

pub compare_str-StrLe : (s t : GoString) → compare_str s t ≢ Ordering.gt → StrLe s t
unfolding compare_str
compare_str-StrLe [] t h = tt
compare_str-StrLe (a ∷ s) [] h = h refl
compare_str-StrLe (a ∷ s) (b ∷ t) h = first (compare a b) refl (compare_str-StrLe s t)
  where
    first :
        (o : Ordering)
        → compare a b ≡ o
        → (compare_str s t ≢ Ordering.gt → StrLe s t)
        → (a < b) ⊎ ((a ≡ b) × StrLe s t)
    first Ordering.lt e rest = inl (ground arith)
    first Ordering.eq e rest = inr (ground arith, rest (λ k. h (ground arith)))
    first Ordering.gt e rest = absurd (h (ground arith))

compare_str_refl : (s : GoString) → compare_str s s ≡ Ordering.eq
unfolding compare_str
compare_str_refl [] = refl
compare_str_refl (a ∷ s) = ground (arith, compare_str_refl s)

compare_str-ne : (s t : GoString) → compare_str s t ≡ Ordering.lt → s ≢ t
compare_str-ne s t h e =
    let same : compare_str s t ≡ Ordering.eq = rw e (compare_str_refl t) in absurd cc

compare_ℤ-eq : (a b : ℤ) → compare_ℤ a b ≡ Ordering.eq → a ≡ b
compare_ℤ-eq (pos n) (pos m) h = ap pos (ground arith)
compare_ℤ-eq (pos n) (negsuc m) h = absurd (ground arith)
compare_ℤ-eq (negsuc n) (pos m) h = absurd (ground arith)
compare_ℤ-eq (negsuc n) (negsuc m) h = ap negsuc (ground arith)

compare_ℤ-lt : (a b : ℤ) → compare_ℤ a b ≡ Ordering.lt → (a ≤ℤ b) × (a ≢ b)
compare_ℤ-lt a b h = (ground arith, λ e. ground arith)

then_cases :
    (f g : Ordering)
    → and_then f g ≢ Ordering.gt
    → (f ≡ Ordering.lt) ⊎ ((f ≡ Ordering.eq) × (g ≢ Ordering.gt))
then_cases Ordering.lt g h = inl refl
then_cases Ordering.eq g h = inr (refl, h)
then_cases Ordering.gt g h = absurd (h refl)

pub compare-StampLe :
    (a b : ℤ) (s t : GoString)
    → and_then (compare_ℤ a b) (compare_str s t) ≢ Ordering.gt
    → StampLe a s b t
compare-StampLe a b s t h = elim (then_cases (compare_ℤ a b) (compare_str s t) h) [
  | inl e ↦ inl (compare_ℤ-lt a b e)
  | inr (e, k) ↦ inr (compare_ℤ-eq a b e, compare_str-StrLe s t k)
]

pub compare-PairLe :
    (a b s t : GoString)
    → and_then (compare_str a b) (compare_str s t) ≢ Ordering.gt
    → PairLe a s b t
compare-PairLe a b s t h = elim (then_cases (compare_str a b) (compare_str s t) h) [
  | inl e ↦ inl (compare_str-StrLe a b (λ k. absurd cc), compare_str-ne a b e)
  | inr (e, k) ↦ inr (compare_str-eq a b e, compare_str-StrLe s t k)
]
