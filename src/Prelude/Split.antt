-- ===== src/Prelude/Split.antt =====
-- `strings.SplitN` with a one-byte separator.
use Prim.Native.Nat.{ℕ, zero, suc, min}
use mathlib.Core.Path.{◌≡◌, refl, sym, ap, ◌∙◌}
use mathlib.Core.Logic.{◌≢◌, inl, inr}
use mathlib.Core.Option.{Option, none, some}
use mathlib.Core.List.{List, [], ◌∷◌, ◌++◌}
use native.Mathlib.Omega.{arith}
use advanced_imessage_go.Prelude.Tests.{◌==◌, if◌then◌else◌, Option-cases}
use advanced_imessage_go.Prelude.Lists.{All, length}
use advanced_imessage_go.Prelude.Text.{GoString}

abbrev push_left : ℕ → Option (GoString × GoString) → Option (GoString × GoString)
push_left c none = none
push_left c (some (a, b)) = some (c ∷ a, b)

-- The parts of `s` around the first separator.
unfoldable pub cut : ℕ → GoString → Option (GoString × GoString)
cut sep [] = none
cut sep (c ∷ s) = let rest = push_left c (cut sep s) in if c == sep then some ([], s) else rest

abbrev split_at :
    Option (GoString × GoString) → GoString → (GoString → List GoString) → List GoString
split_at none s more = s ∷ []
split_at (some (a, b)) s more = a ∷ more b

-- At most `n` parts; the last one is what is left unsplit.
unfoldable pub split_n : ℕ → ℕ → GoString → List GoString
split_n zero sep s = []
split_n (suc zero) sep s = s ∷ []
split_n (suc (suc n)) sep s = split_at (cut sep s) s (split_n (suc n) sep)

abbrev pub join : ℕ → List GoString → GoString
join sep [] = []
join sep (s ∷ []) = s
join sep (s ∷ t ∷ rest) = s ++ (sep ∷ join sep (t ∷ rest))

-- No byte of `s` is the separator.
abbrev pub Without : ℕ → GoString → Type 0
Without sep s = All (λ c. c ≢ sep) s

pub cut-eq_some :
    (sep : ℕ) (s a b : GoString) → cut sep s ≡ some (a, b) → (s ≡ a ++ (sep ∷ b)) × Without sep a
unfolding cut
cut-eq_some sep [] a b h = cc
cut-eq_some sep (c ∷ s) [] b h = (ground arith, tt)
cut-eq_some sep (c ∷ s) (d ∷ a) b h =
    let (whole, free) = cut-eq_some sep s a b (ground arith) in
    (ground (arith, whole), (ground arith, free))

pub cut-append : (sep : ℕ) (a b : GoString) → Without sep a → cut sep (a ++ (sep ∷ b)) ≡ some (a, b)
unfolding cut
cut-append sep [] b h = ground arith
cut-append sep (c ∷ a) b h = ground (arith, h.0, cut-append sep a b h.1)

unfoldable pub count : ℕ → GoString → ℕ
count sep [] = 0
count sep (c ∷ s) = if c == sep then suc (count sep s) else count sep s

count-cut-none : (sep : ℕ) (s : GoString) → cut sep s ≡ none → count sep s ≡ 0
unfolding cut count
count-cut-none sep [] h = refl
count-cut-none sep (c ∷ s) h = ground (arith, count-cut-none sep s)

count-cut-some :
    (sep : ℕ) (s a b : GoString) → cut sep s ≡ some (a, b) → count sep s ≡ suc (count sep b)
unfolding cut count
count-cut-some sep [] a b h = cc
count-cut-some sep (c ∷ s) [] b h = ground arith
count-cut-some sep (c ∷ s) (d ∷ a) b h = ground (arith, count-cut-some sep s a b)

-- One part more than there are separators, and at most `suc n` parts.
pub length-split_n :
    (n sep : ℕ) (s : GoString) → length (split_n (suc n) sep s) ≡ min (suc n) (suc (count sep s))
unfolding split_n
length-split_n zero sep s = omega arith
length-split_n (suc n) sep s = elim (Option-cases (cut sep s)) [
  | inl e ↦ rw (e, split_n) (omega (arith, count-cut-none sep s e))
  | inr (p, e) ↦
      rw (e, split_n) (omega (arith, length-split_n n sep p.1, count-cut-some sep s p.0 p.1 e))
]

join-cons :
    (sep : ℕ) (s : GoString) (l : List GoString)
    → l ≢ []
    → join sep (s ∷ l) ≡ s ++ (sep ∷ join sep l)
join-cons sep s [] h = absurd (h refl)
join-cons sep s (t ∷ l) h = refl

split_n-ne_nil : (n sep : ℕ) (s : GoString) → split_n (suc n) sep s ≢ []
unfolding split_n
split_n-ne_nil zero sep s h = cc
split_n-ne_nil (suc n) sep s h = ground arith

-- The parts, joined again, are the text.
pub join-split_n : (n sep : ℕ) (s : GoString) → join sep (split_n (suc n) sep s) ≡ s
unfolding split_n
join-split_n zero sep s = refl
join-split_n (suc n) sep s = elim (Option-cases (cut sep s)) [
  | inl e ↦ rw (e, split_n)
  | inr (p, e) ↦
      rw (e, split_n)
        (join-cons sep p.0 (split_n (suc n) sep p.1) (split_n-ne_nil n sep p.1)
          ∙ (ap (λ t. p.0 ++ (sep ∷ t)) (join-split_n n sep p.1)
              ∙ sym (cut-eq_some sep s p.0 p.1 e).0))
]

-- Two separators: the three parts that `SplitN(s, sep, 3)` finds.
pub split_n-three :
    (sep : ℕ) (a b c : GoString)
    → Without sep a
    → Without sep b
    → split_n 3 sep (a ++ (sep ∷ b ++ (sep ∷ c))) ≡ a ∷ b ∷ c ∷ []
unfolding split_n
split_n-three sep a b c ha hb =
    rw (cut-append sep a (b ++ (sep ∷ c)) ha, split_n) (rw (cut-append sep b c hb, split_n))

split_n-cons_inv :
    (n sep : ℕ) (s a x : GoString) (l : List GoString)
    → split_n (suc (suc n)) sep s ≡ a ∷ x ∷ l
    → (b : GoString) × (cut sep s ≡ some (a, b)) × (split_n (suc n) sep b ≡ x ∷ l)
unfolding split_n
split_n-cons_inv n sep s a x l h = go (cut sep s) refl h
  where
    go :
        (o : Option (GoString × GoString))
        → cut sep s ≡ o
        → split_at o s (split_n (suc n) sep) ≡ a ∷ x ∷ l
        → (b : GoString) × (cut sep s ≡ some (a, b)) × (split_n (suc n) sep b ≡ x ∷ l)
    go none e k = cc
    go (some (a', b)) e k = (b, ground arith, ground arith)

pub split_n-three_inv :
    (sep : ℕ) (s a b c : GoString)
    → split_n 3 sep s ≡ a ∷ b ∷ c ∷ []
    → (s ≡ a ++ (sep ∷ b ++ (sep ∷ c))) × Without sep a × Without sep b
unfolding split_n
split_n-three_inv sep s a b c h =
    let (t, e, k) = split_n-cons_inv 1 sep s a b (c ∷ []) h in
    let (u, f, l) = split_n-cons_inv 0 sep t b c [] k in
    let (whole, free) = cut-eq_some sep s a t e in
    let (whole', free') = cut-eq_some sep t b u f in (ground (arith, whole, whole', l), free, free')
