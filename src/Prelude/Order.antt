-- ===== src/Prelude/Order.antt =====
-- Comparisons that `SortFunc` accepts: on integers, on strings, by a key, and one after another.
use Prim.Native.Nat.{◌+◌, compare, Ordering}
use mathlib.Core.Path.{◌≡◌, refl, ap}
use mathlib.Core.List.{[], ◌∷◌}
use native.Mathlib.Omega.{arith}
use advanced_imessage_go.Prelude.Text.{GoString, compare_str}
use advanced_imessage_go.Prelude.Int.{ℤ, pos_part, neg_part}
use advanced_imessage_go.Prelude.Sort.{flip, and_then, IsComparison}

abbrev pub compare_ℤ : ℤ → ℤ → Ordering
compare_ℤ a b = compare (pos_part a + neg_part b) (pos_part b + neg_part a)

pub compare_ℤ-IsComparison : IsComparison compare_ℤ
compare_ℤ-IsComparison = record {
  flips = λ a b. ground arith;
  trans_lt = λ a b c h k. ground arith;
  eq_left = λ a b c h. ground arith;
}

compare_str-flip : (s t : GoString) → compare_str t s ≡ flip (compare_str s t)
unfolding compare_str
compare_str-flip [] [] = refl
compare_str-flip [] (b ∷ t) = refl
compare_str-flip (a ∷ s) [] = refl
compare_str-flip (a ∷ s) (b ∷ t) = ground (arith, compare_str-flip s t)

pub compare_str-eq : (s t : GoString) → compare_str s t ≡ Ordering.eq → s ≡ t
unfolding compare_str
compare_str-eq [] [] h = refl
compare_str-eq [] (b ∷ t) h = cc
compare_str-eq (a ∷ s) [] h = cc
compare_str-eq (a ∷ s) (b ∷ t) h = ground (arith, compare_str-eq s t)

compare_str_trans :
    (s t u : GoString)
    → compare_str s t ≡ Ordering.lt
    → compare_str t u ≡ Ordering.lt
    → compare_str s u ≡ Ordering.lt
unfolding compare_str
compare_str_trans [] [] u h k = cc
compare_str_trans (a ∷ s) [] u h k = cc
compare_str_trans [] (b ∷ t) [] h k = cc
compare_str_trans [] (b ∷ t) (c ∷ u) h k = refl
compare_str_trans (a ∷ s) (b ∷ t) [] h k = cc
compare_str_trans (a ∷ s) (b ∷ t) (c ∷ u) h k = ground (arith, compare_str_trans s t u)

pub compare_str-IsComparison : IsComparison compare_str
compare_str-IsComparison = record {
  flips = compare_str-flip;
  trans_lt = compare_str_trans;
  eq_left = λ a b c h. ap (λ s. compare_str s c) (compare_str-eq a b h);
}

module _ {ℓ} {A : Type ℓ} where
  -- Comparing by a key.
  pub on-IsComparison {κ} :
      {K : Type κ} (key : A → K) (cmp : K → K → Ordering)
      → IsComparison cmp
      → IsComparison (λ a b. cmp (key a) (key b))
  on-IsComparison key cmp c = record {
    flips = λ a b. c.flips (key a) (key b);
    trans_lt = λ x y z. c.trans_lt (key x) (key y) (key z);
    eq_left = λ x y z. c.eq_left (key x) (key y) (key z);
  }

  -- One comparison, and a second where the first finds no difference.
  pub and_then-IsComparison :
      (f g : A → A → Ordering)
      → IsComparison f
      → IsComparison g
      → IsComparison (λ a b. and_then (f a b) (g a b))
  and_then-IsComparison f g p q = record {
    flips = λ a b. ground (arith, p.flips a b, q.flips a b);
    trans_lt = λ a b c h k. ground (
      arith,
      p.trans_lt a b c,
      q.trans_lt a b c,
      p.eq_left a b c,
      p.eq_left c b a,
      p.flips b c,
      p.flips a c,
      p.flips c a,
      p.flips a b,
      p.flips b a,
      p.flips c b,
    );
    eq_left = λ a b c h. ground (arith, p.eq_left a b c, q.eq_left a b c);
  }
