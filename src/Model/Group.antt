-- ===== src/Model/Group.antt =====
-- types_group.go.
use advanced_imessage_go.Prelude.Text.{GoString}
use advanced_imessage_go.Model.Common.{Handle}

pub record GroupIcon : Type 0 where
  pub contents : GoString
  pub mime_type : GoString

pub record GroupDisplayNameChanged : Type 0 where
  pub display_name : GoString

pub record GroupParticipantAdded : Type 0 where
  pub participant : Handle

pub record GroupParticipantRemoved : Type 0 where
  pub participant : Handle

pub record GroupParticipantLeft : Type 0 where
  pub participant : Handle

-- The sealed interface `GroupChange`; the last two variants have no fields.
pub data GroupChange : Type 0 where
  display_name_changed : GroupDisplayNameChanged → GroupChange
  participant_added : GroupParticipantAdded → GroupChange
  participant_removed : GroupParticipantRemoved → GroupChange
  participant_left : GroupParticipantLeft → GroupChange
  icon_changed : GroupChange
  icon_removed : GroupChange
