-- ===== src/Convert/Poll.antt =====
-- conv_poll.go: polls and their change deltas.
use advanced_imessage_go.Prelude.{Ordering, List, [], Option, none, some, map}
use advanced_imessage_go.Prelude.Text.{compare_str}
use advanced_imessage_go.Prelude.Sort.{and_then, sort_func}
use advanced_imessage_go.Model.Poll.{
  Poll, PollOption, PollParticipantVote, PollChangeDelta, created, option_added, voted, unvoted,
}
use advanced_imessage_go.Wire.Changes.{PbPollOption, PbPollVote, PbPoll, PbPollChange}
use advanced_imessage_go.Convert.Common.{handle_from_proto}

unfoldable pub poll_option_from_proto : PbPollOption → PollOption
poll_option_from_proto pb = record {
  option_id = pb.option_identifier;
  text = pb.text;
  creator_handle = pb.creator_handle;
}

unfoldable pub poll_options_from_proto : List PbPollOption → List PollOption
poll_options_from_proto pbs = map poll_option_from_proto pbs

-- By the address of the participant, then by the option.
abbrev pub compare_votes : PollParticipantVote → PollParticipantVote → Ordering
compare_votes a b =
    and_then (compare_str a.participant.address b.participant.address)
      (compare_str a.option_id b.option_id)

unfoldable pub poll_vote_from_proto : PbPollVote → PollParticipantVote
poll_vote_from_proto pb = record {
  participant = handle_from_proto pb.participant;
  option_id = pb.option_identifier;
}

unfoldable pub poll_from_proto : Option PbPoll → Poll
poll_from_proto none = record {
  poll_message_guid = [];
  chat_guid = [];
  title = [];
  options = [];
  votes = [];
}
poll_from_proto (some pb) = record {
  poll_message_guid = pb.poll_message_guid;
  chat_guid = pb.chat_guid;
  title = pb.title;
  options = map poll_option_from_proto pb.options;
  votes = sort_func compare_votes (map poll_vote_from_proto pb.votes);
}

unfoldable pub poll_delta_from_proto : PbPollChange → Option PollChangeDelta
poll_delta_from_proto (PbPollChange.created title options) =
    some (created (record { title = title; options = poll_options_from_proto options }))
poll_delta_from_proto (PbPollChange.option_added title options) =
    some (option_added (record { title = title; options = poll_options_from_proto options }))
poll_delta_from_proto (PbPollChange.voted option) = some (voted (record { option_id = option }))
poll_delta_from_proto (PbPollChange.unvoted option) = some (unvoted (record { option_id = option }))
poll_delta_from_proto PbPollChange.unset = none
