-- ===== src/Examples/ChatGuids.antt =====
-- Chat identifiers.
use advanced_imessage_go.Prelude.{◌≡◌, ◌↔◌}
use advanced_imessage_go.Prelude.Text.{GoString, bytes}
use advanced_imessage_go.ChatGuid.{parse_chat_guid, ok}
use advanced_imessage_go.ChatGuid.Parsing.{IsWellFormed, parse_chat_guid_ok_iff}

abbrev group_chat : GoString
group_chat = bytes "iMessage;+;chat1;2"

parse_chat_guid_ok_iff_example :
    (parse_chat_guid group_chat ≡ ok group_chat)
    ↔ ((group_chat ≡ group_chat) × IsWellFormed group_chat)
parse_chat_guid_ok_iff_example = parse_chat_guid_ok_iff group_chat group_chat
