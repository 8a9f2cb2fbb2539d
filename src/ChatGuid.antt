-- ===== src/ChatGuid.antt =====
-- chatguid.go: the structured chat identifier `<service>;<kind>;<identifier>`.
pub mod Parsing
use advanced_imessage_go.Prelude.{ℕ, List, [], ◌∷◌, Bool, true, false, not, ◌&&◌, if◌then◌else◌}
use advanced_imessage_go.Prelude.Text.{GoString, bytes, str_eq, is_empty}
use advanced_imessage_go.Prelude.Split.{split_n}

-- `ChatGUID`; the methods `String` and the conversion `ChatGUID(s)` are the identity.
abbrev pub ChatGuid : Type 0
ChatGuid = GoString

-- The four errors of `ParseChatGUID`, each with the text that it quotes.
pub data ParseError : Type 0 where
  malformed empty_service bad_kind empty_identifier : GoString → ParseError

pub data ParseResult : Type 0 where
  ok : ChatGuid → ParseResult
  err : ParseError → ParseResult

abbrev pub semicolon : ℕ
semicolon = b';'

abbrev pub direct_kind : GoString
direct_kind = bytes "-"

abbrev pub group_kind : GoString
group_kind = bytes "+"

-- `parts[1] != "-" && parts[1] != "+"`
unfoldable pub is_bad_kind : GoString → Bool
is_bad_kind k = not (str_eq k direct_kind) && not (str_eq k group_kind)

-- The checks of `ParseChatGUID`; the test `len(parts) != 3` is the pattern.
unfoldable pub check_parts : GoString → List GoString → ParseResult
check_parts s (service ∷ kind ∷ identifier ∷ []) =
    if is_empty service
    then err (empty_service s)
    else if is_bad_kind kind
    then err (bad_kind s)
    else if is_empty identifier
    then err (empty_identifier s)
    else ok s
check_parts s _ = err (malformed s)

unfoldable pub parse_chat_guid : GoString → ParseResult
unfolding check_parts
parse_chat_guid s = check_parts s (split_n 3 semicolon s)

unfoldable pub has_group_kind : List GoString → Bool
has_group_kind (_ ∷ kind ∷ _ ∷ []) = str_eq kind group_kind
has_group_kind _ = false

unfoldable pub is_group : ChatGuid → Bool
unfolding has_group_kind
is_group c = has_group_kind (split_n 3 semicolon c)
