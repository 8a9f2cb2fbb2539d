-- ===== src/Prelude/Sort.antt =====
-- `slices.SortFunc` with a comparison function that returns -1, 0 or 1 (read as an `Ordering`).
-- The library does not promise a stable sort; its laws below (a sorted permutation, unique where
-- no two elements compare equal) are all that the development uses.
use Prim.Native.Nat.{Ordering}
use mathlib.Core.Path.{◌≡◌, refl, sym, ap₂, subst, subst₂, ◌∙◌}
use mathlib.Core.Logic.{◌≢◌}
use mathlib.Core.List.{List, [], ◌∷◌, Permᴰ}
use mathlib.Core.List.Permᴰ
use native.Mathlib.Omega.{arith}
use advanced_imessage_go.Prelude.Lists.{All}

abbrev pub flip : Ordering → Ordering
flip Ordering.lt = Ordering.gt
flip Ordering.eq = Ordering.eq
flip Ordering.gt = Ordering.lt

-- `if c := a; c != 0 { return c }; return b`
abbrev pub and_then : Ordering → Ordering → Ordering
and_then Ordering.lt _ = Ordering.lt
and_then Ordering.eq b = b
and_then Ordering.gt _ = Ordering.gt

-- What `SortFunc` asks of its comparison: a strict weak order.
pub record IsComparison {ℓ} {A : Type ℓ} (cmp : A → A → Ordering) : Type ℓ where
  pub flips : (a b : A) → cmp b a ≡ flip (cmp a b)
  pub trans_lt : (a b c : A) → cmp a b ≡ Ordering.lt → cmp b c ≡ Ordering.lt → cmp a c ≡ Ordering.lt
  pub eq_left : (a b c : A) → cmp a b ≡ Ordering.eq → cmp a c ≡ cmp b c

module _ {ℓ} {A : Type ℓ} (cmp : A → A → Ordering) where
  abbrev insert_if : Ordering → A → A → List A → List A → List A
  insert_if Ordering.gt x y ys rest = y ∷ rest
  insert_if _ x y ys rest = x ∷ y ∷ ys

  unfoldable pub insert : A → List A → List A
  insert x [] = x ∷ []
  insert x (y ∷ ys) = let rest = insert x ys in insert_if (cmp x y) x y ys rest

  unfoldable pub sort_func : List A → List A
  unfolding insert
  sort_func [] = []
  sort_func (x ∷ xs) = insert x (sort_func xs)

  -- Each element is at most each later one.
  abbrev pub IsSorted : List A → Type ℓ
  IsSorted [] = Unit
  IsSorted (x ∷ xs) = All (λ y. cmp x y ≢ Ordering.gt) xs × IsSorted xs

  -- No two elements compare equal.
  abbrev pub AreDistinct : List A → Type ℓ
  AreDistinct [] = Unit
  AreDistinct (x ∷ xs) = All (λ y. cmp x y ≢ Ordering.eq) xs × AreDistinct xs

module _ {ℓ} {A : Type ℓ} (cmp : A → A → Ordering) (laws : IsComparison cmp) where
  open laws use {flips, trans_lt, eq_left}

  gt_of_le : (a b y : A) → cmp b y ≢ Ordering.gt → cmp a y ≡ Ordering.gt → cmp a b ≡ Ordering.gt
  gt_of_le a b y h k = ground (arith, flips a y, flips b a, trans_lt b y a, eq_left b y a)

  le_trans : (a b c : A) → cmp a b ≢ Ordering.gt → cmp b c ≢ Ordering.gt → cmp a c ≢ Ordering.gt
  le_trans a b c h k = ground (
    arith,
    flips b c,
    flips c b,
    trans_lt a b c,
    eq_left a b c,
    eq_left c b a,
    flips a c,
    flips a b,
  )

  insert-All {κ} : (P : A → Type κ) (x : A) (xs : List A) → P x → All P xs → All P (insert cmp x xs)
  unfolding insert
  insert-All P x [] hx hs = (hx, tt)
  insert-All P x (y ∷ ys) hx hs = go (cmp x y) (insert-All P x ys hx hs.1)
    where
      go :
          (o : Ordering)
          → All P (insert cmp x ys)
          → All P (insert_if cmp o x y ys (insert cmp x ys))
      go Ordering.lt r = (hx, hs)
      go Ordering.eq r = (hx, hs)
      go Ordering.gt r = (hs.0, r)

  All-le :
      (x y : A) (ys : List A)
      → cmp x y ≢ Ordering.gt
      → All (λ z. cmp y z ≢ Ordering.gt) ys
      → All (λ z. cmp x z ≢ Ordering.gt) ys
  All-le x y [] h hs = tt
  All-le x y (z ∷ zs) h hs = (le_trans x y z h hs.0, All-le x y zs h hs.1)

  insert-IsSorted : (x : A) (xs : List A) → IsSorted cmp xs → IsSorted cmp (insert cmp x xs)
  unfolding insert
  insert-IsSorted x [] h = (tt, tt)
  insert-IsSorted x (y ∷ ys) h = go (cmp x y) refl (insert-IsSorted x ys h.1)
    where
      go :
          (o : Ordering)
          → cmp x y ≡ o
          → IsSorted cmp (insert cmp x ys)
          → IsSorted cmp (insert_if cmp o x y ys (insert cmp x ys))
      go Ordering.lt e r = ((ground arith, All-le x y ys (ground arith) h.0), h)
      go Ordering.eq e r = ((ground arith, All-le x y ys (ground arith) h.0), h)
      go Ordering.gt e r =
          (insert-All (λ z. cmp y z ≢ Ordering.gt) x ys (ground (arith, flips x y)) h.0, r)

  pub sort_func-IsSorted : (xs : List A) → IsSorted cmp (sort_func cmp xs)
  unfolding sort_func
  sort_func-IsSorted [] = tt
  sort_func-IsSorted (x ∷ xs) = insert-IsSorted x (sort_func cmp xs) (sort_func-IsSorted xs)

  insert_comm :
      (a b : A) (xs : List A)
      → cmp a b ≢ Ordering.eq
      → insert cmp a (insert cmp b xs) ≡ insert cmp b (insert cmp a xs)
  unfolding insert
  insert_comm a b [] h = ground (arith, flips a b)
  insert_comm a b (y ∷ ys) h =
      ground (arith, flips a b, gt_of_le a b y, gt_of_le b a y, insert_comm a b ys)

module _ {ℓ} {A : Type ℓ} (cmp : A → A → Ordering) where
  insert-perm : (x : A) (xs : List A) → Permᴰ (insert cmp x xs) (x ∷ xs)
  unfolding insert
  insert-perm x [] = Permᴰ.refl (x ∷ [])
  insert-perm x (y ∷ ys) = go (cmp x y) (insert-perm x ys)
    where
      go :
          (o : Ordering)
          → Permᴰ (insert cmp x ys) (x ∷ ys)
          → Permᴰ (insert_if cmp o x y ys (insert cmp x ys)) (x ∷ y ∷ ys)
      go Ordering.lt p = Permᴰ.refl (x ∷ y ∷ ys)
      go Ordering.eq p = Permᴰ.refl (x ∷ y ∷ ys)
      go Ordering.gt p = Permᴰ.trans (Permᴰ.cons refl p) (Permᴰ.swap refl refl)

  pub sort_func-perm : (xs : List A) → Permᴰ (sort_func cmp xs) xs
  unfolding sort_func
  sort_func-perm [] = Permᴰ.refl []
  sort_func-perm (x ∷ xs) =
      Permᴰ.trans (insert-perm x (sort_func cmp xs)) (Permᴰ.cons refl (sort_func-perm xs))

  insert_le : (x : A) (xs : List A) → All (λ y. cmp x y ≢ Ordering.gt) xs → insert cmp x xs ≡ x ∷ xs
  unfolding insert
  insert_le x [] h = refl
  insert_le x (y ∷ ys) h = ground (arith, h.0)

  -- A sorted list is left as it is.
  pub sort_func_of_IsSorted : (xs : List A) → IsSorted cmp xs → sort_func cmp xs ≡ xs
  unfolding sort_func
  sort_func_of_IsSorted [] h = refl
  sort_func_of_IsSorted (x ∷ xs) h = rw (sort_func_of_IsSorted xs h.1) (insert_le x xs h.0)

All-perm {ℓ κ} : {A : Type ℓ} (P : A → Type κ) {l m : List A} → Permᴰ l m → All P l → All P m
All-perm P Permᴰ.nil h = h
All-perm P (Permᴰ.cons e p) h = (subst P e h.0, All-perm P p h.1)
All-perm P (Permᴰ.swap e f) h = (subst P f h.1.0, (subst P e h.0, h.1.1))
All-perm P (Permᴰ.trans p q) h = All-perm P q (All-perm P p h)

module _ {ℓ} {A : Type ℓ} (cmp : A → A → Ordering) (laws : IsComparison cmp) where
  open laws use {flips}

  AreDistinct-perm : {l m : List A} → Permᴰ l m → AreDistinct cmp l → AreDistinct cmp m
  AreDistinct-perm Permᴰ.nil h = h
  AreDistinct-perm (Permᴰ.cons {b = b} e p) h =
      (All-perm (λ y. cmp b y ≢ Ordering.eq) p (rw (sym e) h.0), AreDistinct-perm p h.1)
  AreDistinct-perm (Permᴰ.swap {a = a} {b = b} {l = l} e f) h =
      subst₂ (λ u v. AreDistinct cmp (v ∷ u ∷ l)) e f
        ((ground (arith, flips a b, h.0.0), h.1.0), (h.0.1, h.1.1))
  AreDistinct-perm (Permᴰ.trans p q) h = AreDistinct-perm q (AreDistinct-perm p h)

  -- The result does not depend on the order of the input, if no two elements compare equal.
  pub sort_func_of_perm :
      {l m : List A} → Permᴰ l m → AreDistinct cmp l → sort_func cmp l ≡ sort_func cmp m
  unfolding sort_func
  sort_func_of_perm Permᴰ.nil h = refl
  sort_func_of_perm (Permᴰ.cons e p) h = ap₂ (insert cmp) e (sort_func_of_perm p h.1)
  sort_func_of_perm (Permᴰ.swap {a = a} {b = b} {l = l} e f) h =
      subst₂
        (λ u v.
          insert cmp a (insert cmp b (sort_func cmp l))
          ≡ insert cmp v (insert cmp u (sort_func cmp l)))
        e f (insert_comm cmp laws a b (sort_func cmp l) h.0.0)
  sort_func_of_perm (Permᴰ.trans p q) h =
      sort_func_of_perm p h ∙ sort_func_of_perm q (AreDistinct-perm p h)

  -- Any sorted permutation of the input is the result.
  pub sort_func_unique :
      {l m : List A} → Permᴰ l m → AreDistinct cmp l → IsSorted cmp m → sort_func cmp l ≡ m
  sort_func_unique {m} p d s = sort_func_of_perm p d ∙ sort_func_of_IsSorted cmp m s
