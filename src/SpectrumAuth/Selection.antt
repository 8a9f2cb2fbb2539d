-- ===== src/SpectrumAuth/Selection.antt =====
-- Which line `selectInstance` of examples/internal/spectrumauth/spectrumauth.go selects.
use advanced_imessage_go.Prelude.{
  ℕ, [], ◌∷◌, ◌++◌, All, true, false, Option, none, some, ◌≡◌, ◌≢◌, ◌⊎◌, inl, inr, ◌↔◌, refl, sym,
  ap, ◌∙◌, arith, Bool-cases,
}
use advanced_imessage_go.Prelude.Text.{GoString, str_eq, str_eq_iff, is_empty, empty_cases}
use advanced_imessage_go.Prelude.Header.{Dict, lookup}
use advanced_imessage_go.Transport.Runtime.{ok}
use advanced_imessage_go.SpectrumAuth.{
  Tokens, Library, id_of_number, by_number, only_line, select_instance,
}

-- `id` is the first key, in the order of the iteration, with the value `want`.
abbrev pub IsFirst : GoString → Dict GoString → GoString → Type 0
IsFirst want m id =
    (before : Dict GoString) × (after : Dict GoString) × (m ≡ before ++ (id, want) ∷ after)
    × All (λ entry. entry.1 ≢ want) before

id_of_number-IsFirst :
    (want : GoString) (m : Dict GoString) (id : GoString)
    → id_of_number want m ≡ some id
    → IsFirst want m id
unfolding id_of_number
id_of_number-IsFirst want [] id h = absurd cc
id_of_number-IsFirst want ((j, number) ∷ m) id h = elim (Bool-cases (str_eq number want)) [
  | inl e ↦
      let same = (str_eq_iff number want).0 e in
      let found : j ≡ id = ground arith in ([], m, cc, tt)
  | inr e ↦
      let (before, after, whole, others) = id_of_number-IsFirst want m id (ground arith) in
      (
        (j, number) ∷ before,
        after,
        ap (λ l. (j, number) ∷ l) whole,
        ((λ p. let q = (str_eq_iff number want).1 p in cc), others),
      )
]

IsFirst-id_of_number :
    (want : GoString) (before after : Dict GoString) (id : GoString)
    → All (λ entry. entry.1 ≢ want) before
    → id_of_number want (before ++ (id, want) ∷ after) ≡ some id
unfolding id_of_number
IsFirst-id_of_number want [] after id h = rw ((str_eq_iff want want).1 refl) refl
IsFirst-id_of_number want ((j, number) ∷ before) after id h =
    elim (Bool-cases (str_eq number want)) [
      | inl e ↦ absurd (h.0 ((str_eq_iff number want).0 e))
      | inr e ↦ rw e (IsFirst-id_of_number want before after id h.1)
    ]

-- What each way to ask for a line selects.
abbrev pub IsSelected : Tokens → GoString → GoString → GoString → Type 0
IsSelected t want_instance want_line id =
    (t.auth ≢ [])
    × (((want_instance ≢ []) × (id ≡ want_instance) × (lookup want_instance t.auth ≢ none))
        ⊎ ((want_instance ≡ []) × (want_line ≢ []) × IsFirst want_line t.numbers id)
        ⊎ ((want_instance ≡ [])
            × (want_line ≡ [])
            × ((token : GoString) × (t.auth ≡ (id, token) ∷ []))))

module _ (lib : Library) (t : Tokens) where
  only_line_ok :
      (auth : Dict GoString) (id : GoString)
      → only_line lib auth t ≡ ok id
      → (token : GoString) × (auth ≡ (id, token) ∷ [])
  only_line_ok [] id h = absurd cc
  only_line_ok ((j, token) ∷ []) id h = let e : j ≡ id = cc in (token, ap (λ k. (k, token) ∷ []) e)
  only_line_ok ((j, token) ∷ (entry ∷ auth)) id h = absurd cc

  by_number_ok :
      (o : Option GoString) (want id : GoString) → by_number lib o want t ≡ ok id → o ≡ some id
  by_number_ok none want id h = absurd cc
  by_number_ok (some j) want id h = cc

  -- The three ways, for a project with lines.
  module _ (filled : is_empty t.auth ≡ false) where
    only : (id : GoString) → select_instance lib t [] [] ≡ only_line lib t.auth t
    unfolding select_instance
    only id = rw filled refl

    by_line :
        (c : ℕ) (line : GoString)
        → select_instance lib t [] (c ∷ line)
          ≡ by_number lib (id_of_number (c ∷ line) t.numbers) (c ∷ line) t
    unfolding select_instance
    by_line c line = rw filled refl

    by_instance_ok :
        (c : ℕ) (inst line id : GoString)
        → select_instance lib t (c ∷ inst) line ≡ ok id
        → (id ≡ c ∷ inst) × (lookup (c ∷ inst) t.auth ≢ none)
    unfolding select_instance
    by_instance_ok c inst line id h = ground (arith, filled)

    by_instance :
        (c : ℕ) (inst line : GoString)
        → lookup (c ∷ inst) t.auth ≢ none
        → select_instance lib t (c ∷ inst) line ≡ ok (c ∷ inst)
    unfolding select_instance
    by_instance c inst line h = ground (arith, filled)

  no_lines :
      (inst line id : GoString) → is_empty t.auth ≡ true → select_instance lib t inst line ≢ ok id
  unfolding select_instance
  no_lines inst line id h k = ground (arith, h, k)

  IsSelected-of :
      (filled : is_empty t.auth ≡ false) (lines : t.auth ≢ []) (inst line id : GoString)
      → select_instance lib t inst line ≡ ok id
      → IsSelected t inst line id
  IsSelected-of filled lines [] [] id h =
      (lines, inr (inr (refl, refl, only_line_ok t.auth id (sym (only filled id) ∙ h))))
  IsSelected-of filled lines [] (c ∷ line) id h = (
    lines,
    inr (
        inl (
          refl,
          (λ e. cc),
          id_of_number-IsFirst (c ∷ line) t.numbers id (
              by_number_ok (id_of_number (c ∷ line) t.numbers) (c ∷ line) id
                (sym (by_line filled c line) ∙ h)),
        )),
  )
  IsSelected-of filled lines (c ∷ inst) line id h =
      let (same, known) = by_instance_ok filled c inst line id h in
      (lines, inl ((λ e. cc), same, known))

  of_selected :
      (filled : is_empty t.auth ≡ false) (inst line id : GoString)
      → IsSelected t inst line id
      → select_instance lib t inst line ≡ ok id
  of_selected filled (c ∷ inst) line id (lines, inl (given, same, known)) =
      by_instance filled c inst line known ∙ ap ok (sym same)
  of_selected filled [] line id (lines, inl (given, same, known)) = absurd (given refl)
  of_selected filled (c ∷ inst) line id (lines, inr (inl (none_given, asked, first))) = absurd cc
  of_selected filled [] (c ∷ line) id (lines, inr (inl (none_given, asked, first))) =
      let (before, after, whole, others) = first in
      by_line filled c line
      ∙ ap (λ o. by_number lib o (c ∷ line) t)
          (ap (id_of_number (c ∷ line)) whole
            ∙ IsFirst-id_of_number (c ∷ line) before after id others)
  of_selected filled [] [] id (lines, inr (inl (none_given, asked, first))) = absurd (asked refl)
  of_selected filled [] [] id (lines, inr (inr (none_given, unasked, (token, whole)))) =
      only filled id ∙ ap (λ m. only_line lib m t) whole
  of_selected filled [] (c ∷ line) id (lines, inr (inr (none_given, unasked, whole))) = absurd cc
  of_selected filled (c ∷ inst) line id (lines, inr (inr (none_given, unasked, whole))) = absurd cc

  -- `selectInstance` succeeds exactly if the project has lines and one is determined: the instance
  -- that is asked for, if the server has a token for it; or, without one, the first with the number
  -- that is asked for; or, without either, the only one. Anything else is an error.
  pub select_instance_ok_iff :
      (want_instance want_line id : GoString)
      → (select_instance lib t want_instance want_line ≡ ok id)
        ↔ IsSelected t want_instance want_line id
  select_instance_ok_iff want_instance want_line id = elim (empty_cases t.auth) [
    | inl (empty, none_there) ↦
        (λ h. absurd (no_lines want_instance want_line id empty h), λ h. absurd (h.0 none_there))
    | inr (filled, lines) ↦ (
      IsSelected-of filled lines want_instance want_line id,
      of_selected filled want_instance want_line id,
    )
  ]
