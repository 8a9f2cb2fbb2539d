-- ===== src/Messages/Sending.antt =====
-- messages.go: the operations of `MessageClient` that send or change something.
use advanced_imessage_go.Prelude.{List, Bool, true, false, not, ◌&&◌, Option, map, if◌then◌else◌}
use advanced_imessage_go.Prelude.Text.{GoString, str_eq, is_empty}
use advanced_imessage_go.ChatGuid.{ChatGuid}
use advanced_imessage_go.Errors.Chain.{GoError, ConnectText}
use advanced_imessage_go.Errors.Convert.{as_error}
use advanced_imessage_go.Client.{invalid_argument}
use advanced_imessage_go.Transport.Runtime.{Action, Outcome, fail, Context}
use advanced_imessage_go.Model.Kinds.{reaction_emoji}
use advanced_imessage_go.Model.Message.{Message}
use advanced_imessage_go.Model.MessageInput.{
  StickerInput, MessagePart, Reaction, IdempotencyOptions, SendTextOptions, SendAttachmentOptions,
  SendMultipartOptions, EditOptions, PartOptions, CustomizedMiniAppMessage,
}
use advanced_imessage_go.Wire.Common.{Timestamps}
use advanced_imessage_go.Convert.Common.{reaction_kind_to_proto}
use advanced_imessage_go.Convert.Outgoing.{
  given, set_if, reply_target_to_proto, message_part_to_proto, sticker_placement_to_proto,
  message_target,
}
use advanced_imessage_go.Messages.{
  MessageService, from_options, key_of, mini_app_layout_to_proto, attachment_ref, send_text_request,
  not_settable, emoji_required, set_reaction_request, message_result, then_result,
}

module _ ⦃ct : ConnectText⦄ ⦃ts : Timestamps⦄ {S : Type 0} (svc : MessageService S)
    (ctx : Context) where
  unfoldable pub send_text :
      ChatGuid → GoString → Option SendTextOptions → Action S (Outcome Message)
  unfolding send_text_request
  send_text chat text opts =
      then_result message_result (svc.send_text_message ctx (send_text_request chat text opts))

  unfoldable pub send_attachment :
      ChatGuid → GoString → Option SendAttachmentOptions → Action S (Outcome Message)
  send_attachment chat guid opts = then_result message_result (
      svc.send_attachment_message ctx (record {
        chat_guid = chat;
        attachment = attachment_ref guid;
        reply_to = from_options (λ o. reply_target_to_proto o.reply_to) opts;
        effect_id = from_options (λ o. given o.effect) opts;
        is_audio_message = from_options (λ o. set_if o.is_audio_message) opts;
        client_message_id = from_options (λ o. given o.client_message_id) opts;
      }))

  unfoldable pub send_multipart :
      ChatGuid → List MessagePart → Option SendMultipartOptions → Action S (Outcome Message)
  send_multipart chat parts opts = then_result message_result (
      svc.send_multipart_message ctx (record {
        chat_guid = chat;
        parts = map message_part_to_proto parts;
        reply_to = from_options (λ o. reply_target_to_proto o.reply_to) opts;
        subject = from_options (λ o. given o.subject) opts;
        effect_id = from_options (λ o. given o.effect) opts;
        enable_data_detection = from_options (λ o. set_if o.enable_data_detection) opts;
        client_message_id = from_options (λ o. given o.client_message_id) opts;
      }))

  unfoldable pub send_customized_mini_app :
      ChatGuid → CustomizedMiniAppMessage → Option IdempotencyOptions → Action S (Outcome Message)
  send_customized_mini_app chat message opts = then_result message_result (
      svc.send_customized_mini_app_message ctx (record {
        chat_guid = chat;
        team_id = message.team_id;
        extension_bundle_id = message.extension_bundle_id;
        app_name = message.app_name;
        url = message.url;
        layout = mini_app_layout_to_proto message.layout;
        app_store_id = message.app_store_id;
        client_message_id = key_of opts;
      }))

  unfoldable pub edit :
      ChatGuid → GoString → GoString → Option EditOptions → Action S (Outcome Message)
  edit chat guid new_text opts = then_result message_result (
      svc.edit_message ctx (record {
        target = message_target chat guid (from_options (λ o. o.part_index) opts);
        new_text = new_text;
        backward_compat_text = from_options (λ o. given o.backward_compat_text) opts;
        client_message_id = from_options (λ o. given o.client_message_id) opts;
      }))

  unfoldable pub unsend : ChatGuid → GoString → Option PartOptions → Action S GoError
  unsend chat guid opts = then_result as_error (
      svc.unsend_message ctx (record {
        target = message_target chat guid (from_options (λ o. o.part_index) opts);
        client_message_id = from_options (λ o. given o.client_message_id) opts;
      }))

  -- `setReaction`: an invalid reaction is refused before any request is sent.
  unfoldable pub set_reaction :
      ChatGuid → GoString → Reaction → Bool → Option PartOptions → Action S (Outcome Message)
  set_reaction chat guid reaction is_set opts s =
      let (kind, settable) = reaction_kind_to_proto reaction.kind in
      if not settable
      then (fail (invalid_argument (not_settable (svc.quote reaction.kind))), s)
      else if str_eq reaction.kind reaction_emoji && is_empty reaction.emoji
      then (fail (invalid_argument emoji_required), s)
      else then_result message_result
          (svc.set_reaction_message ctx (set_reaction_request chat guid kind reaction is_set opts))
          s

  unfoldable pub add_reaction :
      ChatGuid → GoString → Reaction → Option PartOptions → Action S (Outcome Message)
  unfolding set_reaction
  add_reaction chat guid reaction opts = set_reaction chat guid reaction true opts

  unfoldable pub remove_reaction :
      ChatGuid → GoString → Reaction → Option PartOptions → Action S (Outcome Message)
  unfolding set_reaction
  remove_reaction chat guid reaction opts = set_reaction chat guid reaction false opts

  unfoldable pub place_sticker :
      ChatGuid → GoString → StickerInput → Option PartOptions → Action S (Outcome Message)
  place_sticker chat guid sticker opts = then_result message_result (
      svc.place_sticker_message ctx (record {
        target = message_target chat guid (from_options (λ o. o.part_index) opts);
        sticker = attachment_ref sticker.guid;
        placement = sticker_placement_to_proto sticker.placement;
        client_message_id = from_options (λ o. given o.client_message_id) opts;
      }))

  unfoldable pub notify_silenced :
      ChatGuid → GoString → Option IdempotencyOptions → Action S GoError
  notify_silenced chat guid opts = then_result as_error (
      svc.notify_silenced_message ctx
        (record { chat_guid = chat; message_guid = guid; client_message_id = key_of opts }))
