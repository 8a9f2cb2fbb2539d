-- ===== src/Model/Kinds.antt =====
-- types_message.go: the item types and reaction kinds of messages.
use advanced_imessage_go.Prelude.Text.{GoString, bytes}

abbrev pub MessageItemType : Type 0
MessageItemType = GoString

abbrev pub item_normal : MessageItemType
item_normal = bytes "normal"

abbrev pub item_participant_change : MessageItemType
item_participant_change = bytes "participantChange"

abbrev pub item_group_name_change : MessageItemType
item_group_name_change = bytes "groupNameChange"

abbrev pub item_chat_action : MessageItemType
item_chat_action = bytes "chatAction"

abbrev pub item_unknown : MessageItemType
item_unknown = bytes "unknown"

abbrev pub MessageReactionKind : Type 0
MessageReactionKind = GoString

abbrev pub reaction_love : MessageReactionKind
reaction_love = bytes "love"

abbrev pub reaction_like : MessageReactionKind
reaction_like = bytes "like"

abbrev pub reaction_dislike : MessageReactionKind
reaction_dislike = bytes "dislike"

abbrev pub reaction_laugh : MessageReactionKind
reaction_laugh = bytes "laugh"

abbrev pub reaction_emphasize : MessageReactionKind
reaction_emphasize = bytes "emphasize"

abbrev pub reaction_question : MessageReactionKind
reaction_question = bytes "question"

abbrev pub reaction_emoji : MessageReactionKind
reaction_emoji = bytes "emoji"

abbrev pub reaction_sticker : MessageReactionKind
reaction_sticker = bytes "sticker"

abbrev pub reaction_unknown : MessageReactionKind
reaction_unknown = bytes "unknown"
