-- ===== src/ChatGuid/Parsing.antt =====
-- Which strings `ParseChatGUID` of chatguid.go accepts, and what `IsGroup` says of them.
use advanced_imessage_go.Prelude.{
  length, ◌≤◌, ◌<◌, List, [], ◌∷◌, ◌++◌, true, ◌≡◌, ◌≢◌, ◌↔◌, ◌⊎◌, inl, inr, refl, sym, ap, ◌∙◌,
  arith,
}
use advanced_imessage_go.Prelude.Text.{GoString, str_eq_iff}
use advanced_imessage_go.Prelude.Split.{
  Without, split_n, split_n-three, split_n-three_inv, count, length-split_n,
}
use advanced_imessage_go.ChatGuid.{
  ok, err, malformed, semicolon, direct_kind, group_kind, is_bad_kind, check_parts, parse_chat_guid,
  has_group_kind, is_group,
}

-- The documented form, with the three fields.
pub record HasForm (s service kind identifier : GoString) : Type 0 where
  pub whole : s ≡ service ++ (semicolon ∷ kind ++ (semicolon ∷ identifier))
  pub service_plain : Without semicolon service
  pub service_given : service ≢ []
  pub kind_known : (kind ≡ direct_kind) ⊎ (kind ≡ group_kind)
  pub identifier_given : identifier ≢ []

abbrev pub IsWellFormed : GoString → Type 0
IsWellFormed s =
    (service : GoString) × (kind : GoString) × (identifier : GoString) × HasForm s service kind
      identifier

kind-Without :
    (kind : GoString) → (kind ≡ direct_kind) ⊎ (kind ≡ group_kind) → Without semicolon kind
kind-Without kind (inl e) = rw e ((λ h. absurd (omega arith)), tt)
kind-Without kind (inr e) = rw e ((λ h. absurd (omega arith)), tt)

parts_of_HasForm :
    (s service kind identifier : GoString)
    → HasForm s service kind identifier
    → split_n 3 semicolon s ≡ service ∷ kind ∷ identifier ∷ []
parts_of_HasForm s service kind identifier f =
    ap (split_n 3 semicolon) f.whole
    ∙ split_n-three semicolon service kind identifier f.service_plain
        (kind-Without kind f.kind_known)

check_parts_lem :
    (s service kind identifier : GoString)
    → service ≢ []
    → (kind ≡ direct_kind) ⊎ (kind ≡ group_kind)
    → identifier ≢ []
    → check_parts s (service ∷ kind ∷ identifier ∷ []) ≡ ok s
unfolding check_parts is_bad_kind
check_parts_lem s service kind identifier h k l =
    ground (arith, str_eq_iff kind direct_kind, str_eq_iff kind group_kind)

check_parts_inv :
    (s g : GoString) (parts : List GoString)
    → check_parts s parts ≡ ok g
    → (service : GoString) × (kind : GoString) × (identifier : GoString) × (parts
        ≡ service ∷ kind ∷ identifier ∷ [])
      × (g ≡ s)
      × (service ≢ [])
      × ((kind ≡ direct_kind) ⊎ (kind ≡ group_kind))
      × (identifier ≢ [])
unfolding check_parts is_bad_kind
check_parts_inv s g (service ∷ kind ∷ identifier ∷ []) h = (
  service,
  kind,
  identifier,
  refl,
  ground arith,
  ground arith,
  ground (arith, str_eq_iff kind direct_kind, str_eq_iff kind group_kind),
  ground arith,
)
check_parts_inv s g _ h = cc

-- `ParseChatGUID` accepts exactly the strings of the documented form, and returns them unchanged:
-- a non-empty service with no semicolon, the kind "-" or "+", and a non-empty identifier, which
-- may hold further semicolons.
pub parse_chat_guid_ok_iff :
    (s g : GoString) → (parse_chat_guid s ≡ ok g) ↔ ((g ≡ s) × IsWellFormed s)
unfolding parse_chat_guid
parse_chat_guid_ok_iff s g = (accepted, formed)
  where
    accepted : parse_chat_guid s ≡ ok g → (g ≡ s) × IsWellFormed s
    accepted h =
        let (service, kind, identifier, parts, same, a, b, c) =
          check_parts_inv s g (split_n 3 semicolon s) h in
        let (whole, plain, _) = split_n-three_inv semicolon s service kind identifier parts in
        (
          same,
          (
            service,
            kind,
            identifier,
            record {
              whole = whole;
              service_plain = plain;
              service_given = a;
              kind_known = b;
              identifier_given = c;
            },
          ),
        )

    formed : (g ≡ s) × IsWellFormed s → parse_chat_guid s ≡ ok g
    formed h =
        let (service, kind, identifier, f) = h.1 in
        ap (check_parts s) (parts_of_HasForm s service kind identifier f)
        ∙ (check_parts_lem s service kind identifier f.service_given f.kind_known f.identifier_given
            ∙ ap ok (sym h.0))

-- For a string in the documented form, `IsGroup` is true exactly when its kind is "+".
pub is_group_iff :
    (s service kind identifier : GoString)
    → HasForm s service kind identifier
    → (is_group s ≡ true) ↔ (kind ≡ group_kind)
unfolding is_group has_group_kind
is_group_iff s service kind identifier f =
    rw (parts_of_HasForm s service kind identifier f) (str_eq_iff kind group_kind)

check_parts_short :
    (s t : GoString) (parts : List GoString)
    → length parts ≤ 3
    → (check_parts s parts ≡ err (malformed t)) ↔ ((t ≡ s) × (length parts < 3))
unfolding check_parts
check_parts_short s t [] h = (λ e. (ground arith, omega arith), λ p. ground (arith, p.0))
check_parts_short s t (a ∷ []) h = (λ e. (ground arith, omega arith), λ p. ground (arith, p.0))
check_parts_short s t (a ∷ b ∷ []) h = (λ e. (ground arith, omega arith), λ p. ground (arith, p.0))
check_parts_short s t (a ∷ b ∷ c ∷ []) h = (λ e. ground arith, λ p. absurd (omega (arith, p.1)))
check_parts_short s t (a ∷ b ∷ c ∷ d ∷ l) h = absurd (omega arith)

-- `ParseChatGUID` reports a string as malformed exactly when it has fewer than two semicolons,
-- and the error quotes that string.
pub parse_chat_guid_malformed_iff :
    (s t : GoString) → (parse_chat_guid s ≡ err (malformed t)) ↔ ((t ≡ s) × (count semicolon s < 2))
unfolding parse_chat_guid
parse_chat_guid_malformed_iff s t =
    let parts = split_n 3 semicolon s in
    let size = length-split_n 2 semicolon s in
    let (there, back) = check_parts_short s t parts (omega (arith, size)) in
    (
      λ e. ((there e).0, omega (arith, size, (there e).1)),
      λ p. back (p.0, omega (arith, size, p.1)),
    )
