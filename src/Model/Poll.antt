-- ===== src/Model/Poll.antt =====
-- types_poll.go.
use advanced_imessage_go.Prelude.{List}
use advanced_imessage_go.Prelude.Text.{GoString}
use advanced_imessage_go.Model.Common.{Handle}

pub record PollOption : Type 0 where
  pub option_id : GoString
  pub text : GoString
  pub creator_handle : GoString

pub record PollParticipantVote : Type 0 where
  pub participant : Handle
  pub option_id : GoString

pub record Poll : Type 0 where
  pub poll_message_guid : GoString
  pub chat_guid : GoString
  pub title : GoString
  pub options : List PollOption
  pub votes : List PollParticipantVote

pub record PollCreated : Type 0 where
  pub title : GoString
  pub options : List PollOption

pub record PollOptionAdded : Type 0 where
  pub title : GoString
  pub options : List PollOption

pub record PollVoted : Type 0 where
  pub option_id : GoString

pub record PollUnvoted : Type 0 where
  pub option_id : GoString

-- The sealed interface `PollChangeDelta`.
pub data PollChangeDelta : Type 0 where
  created : PollCreated → PollChangeDelta
  option_added : PollOptionAdded → PollChangeDelta
  voted : PollVoted → PollChangeDelta
  unvoted : PollUnvoted → PollChangeDelta
