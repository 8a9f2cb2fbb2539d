-- ===== src/Convert/Message.antt =====
-- conv_message.go and conv_chat.go: messages and chats.
use advanced_imessage_go.Prelude.{[], false, Option, none, some, map}
use advanced_imessage_go.Prelude.Int.{pos}
use advanced_imessage_go.Model.Common.{zero_time}
use advanced_imessage_go.Model.Message.{Message}
use advanced_imessage_go.Model.Chat.{Chat}
use advanced_imessage_go.Wire.Common.{Timestamps}
use advanced_imessage_go.Wire.Message.{PbMessage, PbChat}
use advanced_imessage_go.Convert.Common.{
  if_present, time_from_proto, time_ptr_from_proto, ptr_int, ptr_bool, chat_service_from_proto,
  handle_from_proto, handle_ptr_from_proto, message_item_type_from_proto, reaction_from_proto,
}
use advanced_imessage_go.Convert.Content.{
  no_content, message_content_from_proto, applied_reactions_from_proto, placed_stickers_from_proto,
}

-- `Message{}`
abbrev pub no_message : Message
no_message = record {
  guid = [];
  content = no_content;
  subject = [];
  date_created = zero_time;
  date_read = none;
  date_delivered = none;
  date_edited = none;
  date_retracted = none;
  date_played = none;
  date_expressive_send_played = none;
  sender = none;
  is_from_me = false;
  is_sent = false;
  is_delivered = false;
  is_delivered_quietly = false;
  did_notify_recipient = false;
  send_error_code = pos 0;
  is_audio_message = false;
  is_auto_reply = false;
  is_system_message = false;
  is_forward = false;
  is_delayed = false;
  is_spam = false;
  data_detector_results_present = false;
  is_archived = false;
  is_service_message = false;
  is_corrupt = false;
  is_expirable = false;
  share_status = none;
  share_direction = none;
  item_type = [];
  group_title = [];
  chat_action_type = none;
  thread_originator_guid = [];
  thread_originator_part = [];
  reply_to_guid = [];
  reply_target_guid = [];
  destination_caller_id = [];
  part_count = none;
  cached_room_names = [];
  reaction_target_guid = [];
  reaction_target_part_index = none;
  reaction = none;
  reaction_selected = none;
  applied_reactions = [];
  placed_stickers = [];
  chat_guids = [];
}

module _ ⦃ts : Timestamps⦄ where
  unfoldable pub message_from_proto : Option PbMessage → Message
  message_from_proto none = no_message
  message_from_proto (some pb) = record {
    guid = pb.guid;
    content = message_content_from_proto pb.content;
    subject = pb.subject;
    date_created = time_from_proto pb.date_created;
    date_read = time_ptr_from_proto pb.date_read;
    date_delivered = time_ptr_from_proto pb.date_delivered;
    date_edited = time_ptr_from_proto pb.date_edited;
    date_retracted = time_ptr_from_proto pb.date_retracted;
    date_played = time_ptr_from_proto pb.date_played;
    date_expressive_send_played = time_ptr_from_proto pb.date_expressive_send_played;
    sender = handle_ptr_from_proto pb.sender;
    is_from_me = pb.is_from_me;
    is_sent = pb.is_sent;
    is_delivered = pb.is_delivered;
    is_delivered_quietly = pb.is_delivered_quietly;
    did_notify_recipient = pb.did_notify_recipient;
    send_error_code = pb.send_error_code;
    is_audio_message = pb.is_audio_message;
    is_auto_reply = pb.is_auto_reply;
    is_system_message = pb.is_system_message;
    is_forward = pb.is_forward;
    is_delayed = pb.is_delayed;
    is_spam = pb.is_spam;
    data_detector_results_present = pb.data_detector_results_present;
    is_archived = pb.is_archived;
    is_service_message = pb.is_service_message;
    is_corrupt = pb.is_corrupt;
    is_expirable = pb.is_expirable;
    share_status = if_present ptr_int pb.share_status;
    share_direction = if_present ptr_int pb.share_direction;
    item_type = message_item_type_from_proto pb.item_type;
    group_title = pb.group_title;
    chat_action_type = if_present ptr_int pb.chat_action_type;
    thread_originator_guid = pb.thread_originator_guid;
    thread_originator_part = pb.thread_originator_part;
    reply_to_guid = pb.reply_to_guid;
    reply_target_guid = pb.reply_target_guid;
    destination_caller_id = pb.destination_caller_id;
    part_count = if_present ptr_int pb.part_count;
    cached_room_names = pb.cached_room_names;
    reaction_target_guid = pb.reaction_target_guid;
    reaction_target_part_index = if_present ptr_int pb.reaction_target_part_index;
    reaction = if_present (λ r. some (reaction_from_proto (some r))) pb.reaction;
    reaction_selected = if_present ptr_bool pb.reaction_selected;
    applied_reactions = applied_reactions_from_proto pb.applied_reactions;
    placed_stickers = placed_stickers_from_proto pb.placed_stickers;
    chat_guids = pb.chat_guids;
  }

  unfoldable pub message_ptr_from_proto : Option PbMessage → Option Message
  message_ptr_from_proto none = none
  message_ptr_from_proto (some pb) = some (message_from_proto (some pb))

  unfoldable pub chat_from_proto : Option PbChat → Chat
  chat_from_proto none = record {
    guid = [];
    chat_identifier = [];
    group_id = [];
    display_name = [];
    is_group = false;
    service = [];
    is_archived = false;
    is_filtered = false;
    unread_count = none;
    participants = [];
    last_message = none;
  }
  chat_from_proto (some pb) = record {
    guid = pb.guid;
    chat_identifier = pb.chat_identifier;
    group_id = pb.group_id;
    display_name = pb.display_name;
    is_group = pb.is_group;
    service = chat_service_from_proto pb.service;
    is_archived = pb.is_archived;
    is_filtered = pb.is_filtered;
    unread_count = if_present ptr_int pb.unread_count;
    participants = map handle_from_proto pb.participants;
    last_message = message_ptr_from_proto pb.last_message;
  }
