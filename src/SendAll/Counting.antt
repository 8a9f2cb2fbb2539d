-- ===== src/SendAll/Counting.antt =====
-- That the calls of the client count the failures of the generated services.
use advanced_imessage_go.Prelude.{ℕ, Bool, List, Option, none}
use advanced_imessage_go.Prelude.Text.{GoString}
use advanced_imessage_go.ChatGuid.{ChatGuid}
use advanced_imessage_go.Errors.Chain.{ConnectText}
use advanced_imessage_go.Transport.Runtime.{Context}
use advanced_imessage_go.Model.MessageInput.{
  Reaction, SendTextOptions, SendAttachmentOptions, SendMultipartOptions, MessagePart, EditOptions,
  PartOptions, StickerInput, CustomizedMiniAppMessage, IdempotencyOptions,
}
use advanced_imessage_go.Model.Attachment.{AttachmentInput}
use advanced_imessage_go.Wire.Common.{Timestamps}
use advanced_imessage_go.Wire.Requests.{
  PbSendText, PbSendAttachment, PbSendMultipart, PbSendMiniApp, PbEdit, PbUnsend, PbSetReaction,
  PbPlaceSticker, PbNotifySilenced,
}
use advanced_imessage_go.Convert.Poll.{poll_from_proto}
use advanced_imessage_go.Messages.{MessageService}
use advanced_imessage_go.Messages.Sending.{
  send_text, unsend, send_attachment, send_multipart, send_customized_mini_app, edit, set_reaction,
  place_sticker, notify_silenced,
}
use advanced_imessage_go.Messages.Reactions.{IsValid, set_reaction_sent}
use advanced_imessage_go.Services.Attachments.{AttachmentService, PbUpload, upload, uploaded}
use advanced_imessage_go.Services.Polls.{
  PollService, PbCreatePoll, create, vote, unvote, add_option,
}
use advanced_imessage_go.SendAll.Tallies.{
  IsCounted, IsCountedError, answered-IsCounted, then_result-IsCounted, then_error-IsCountedError,
}

-- The generated services count their failures: each call adds one if it returns an error, and
-- nothing otherwise.
pub record CountFailures {S : Type 0} (count : S → ℕ) (msgs : MessageService S)
    (attachments : AttachmentService S) (polls : PollService S) : Type 0 where
  pub counts_send_text :
      (ctx : Context) (req : PbSendText) → IsCounted count (msgs.send_text_message ctx req)
  pub counts_send_attachment :
      (ctx : Context) (req : PbSendAttachment)
      → IsCounted count (msgs.send_attachment_message ctx req)
  pub counts_send_multipart :
      (ctx : Context) (req : PbSendMultipart)
      → IsCounted count (msgs.send_multipart_message ctx req)
  pub counts_send_mini_app :
      (ctx : Context) (req : PbSendMiniApp)
      → IsCounted count (msgs.send_customized_mini_app_message ctx req)
  pub counts_edit : (ctx : Context) (req : PbEdit) → IsCounted count (msgs.edit_message ctx req)
  pub counts_unsend :
      (ctx : Context) (req : PbUnsend) → IsCountedError count (msgs.unsend_message ctx req)
  pub counts_set_reaction :
      (ctx : Context) (req : PbSetReaction) → IsCounted count (msgs.set_reaction_message ctx req)
  pub counts_place_sticker :
      (ctx : Context) (req : PbPlaceSticker) → IsCounted count (msgs.place_sticker_message ctx req)
  pub counts_notify :
      (ctx : Context) (req : PbNotifySilenced)
      → IsCountedError count (msgs.notify_silenced_message ctx req)
  pub counts_upload :
      (ctx : Context) (req : PbUpload) → IsCounted count (attachments.upload_attachment ctx req)
  pub counts_create :
      (ctx : Context) (req : PbCreatePoll) → IsCounted count (polls.create_poll ctx req)
  pub counts_vote :
      (ctx : Context) (guid option_id : GoString) (key : Option GoString)
      → IsCounted count (polls.vote_poll ctx guid option_id key)
  pub counts_unvote :
      (ctx : Context) (guid : GoString) (key : Option GoString)
      → IsCounted count (polls.unvote_poll ctx guid key)
  pub counts_add_option :
      (ctx : Context) (guid text : GoString) (key : Option GoString)
      → IsCounted count (polls.add_poll_option ctx guid text key)

module _ ⦃ct : ConnectText⦄ ⦃ts : Timestamps⦄ {S : Type 0} {msgs : MessageService S}
    {attachments : AttachmentService S} {polls : PollService S} (ctx : Context) (chat : ChatGuid)
    (count : S → ℕ) (counts : CountFailures count msgs attachments polls) where
  open counts use {
    counts_send_text, counts_send_attachment, counts_send_multipart, counts_send_mini_app,
    counts_edit, counts_unsend, counts_set_reaction, counts_place_sticker, counts_notify,
    counts_upload, counts_create, counts_vote, counts_unvote, counts_add_option,
  }

  pub send_text-IsCounted :
      (text : GoString) (opts : Option SendTextOptions)
      → IsCounted count (send_text msgs ctx chat text opts)
  unfolding send_text
  send_text-IsCounted text opts = then_result-IsCounted count _ (counts_send_text ctx _)

  pub send_attachment-IsCounted :
      (guid : GoString) (opts : Option SendAttachmentOptions)
      → IsCounted count (send_attachment msgs ctx chat guid opts)
  unfolding send_attachment
  send_attachment-IsCounted guid opts = then_result-IsCounted count _ (counts_send_attachment ctx _)

  pub send_multipart-IsCounted :
      (parts : List MessagePart) (opts : Option SendMultipartOptions)
      → IsCounted count (send_multipart msgs ctx chat parts opts)
  unfolding send_multipart
  send_multipart-IsCounted parts opts = then_result-IsCounted count _ (counts_send_multipart ctx _)

  pub send_customized_mini_app-IsCounted :
      (message : CustomizedMiniAppMessage) (opts : Option IdempotencyOptions)
      → IsCounted count (send_customized_mini_app msgs ctx chat message opts)
  unfolding send_customized_mini_app
  send_customized_mini_app-IsCounted message opts =
      then_result-IsCounted count _ (counts_send_mini_app ctx _)

  pub edit-IsCounted :
      (guid new_text : GoString) (opts : Option EditOptions)
      → IsCounted count (edit msgs ctx chat guid new_text opts)
  unfolding edit
  edit-IsCounted guid new_text opts = then_result-IsCounted count _ (counts_edit ctx _)

  pub unsend-IsCountedError :
      (guid : GoString) (opts : Option PartOptions)
      → IsCountedError count (unsend msgs ctx chat guid opts)
  unfolding unsend
  unsend-IsCountedError guid opts = then_error-IsCountedError count _ (counts_unsend ctx _)

  pub place_sticker-IsCounted :
      (guid : GoString) (sticker : StickerInput) (opts : Option PartOptions)
      → IsCounted count (place_sticker msgs ctx chat guid sticker opts)
  unfolding place_sticker
  place_sticker-IsCounted guid sticker opts =
      then_result-IsCounted count _ (counts_place_sticker ctx _)

  pub notify_silenced-IsCountedError :
      (guid : GoString) (opts : Option IdempotencyOptions)
      → IsCountedError count (notify_silenced msgs ctx chat guid opts)
  unfolding notify_silenced
  notify_silenced-IsCountedError guid opts = then_error-IsCountedError count _ (counts_notify ctx _)

  pub set_reaction-IsCounted :
      (guid : GoString) (r : Reaction) (is_set : Bool)
      → IsValid r
      → IsCounted count (set_reaction msgs ctx chat guid r is_set none)
  set_reaction-IsCounted guid r is_set valid s =
      let sent = set_reaction_sent msgs ctx chat guid r is_set none s valid in
      rw sent.1 (
        then_result-IsCounted count (msgs.set_reaction_message ctx sent.0)
          (counts_set_reaction ctx sent.0) s)

  pub upload-IsCounted : (input : AttachmentInput) → IsCounted count (upload attachments ctx input)
  unfolding upload
  upload-IsCounted input = answered-IsCounted count uploaded _ (counts_upload ctx _)

  pub create-IsCounted :
      (title : GoString) (choices : List GoString) (opts : Option IdempotencyOptions)
      → IsCounted count (create polls ctx chat title choices opts)
  unfolding create
  create-IsCounted title choices opts =
      answered-IsCounted count poll_from_proto _ (counts_create ctx _)

  pub vote-IsCounted :
      (guid option_id : GoString) (opts : Option IdempotencyOptions)
      → IsCounted count (vote polls ctx guid option_id opts)
  unfolding vote
  vote-IsCounted guid option_id opts =
      answered-IsCounted count poll_from_proto _ (counts_vote ctx guid option_id _)

  pub unvote-IsCounted :
      (guid : GoString) (opts : Option IdempotencyOptions)
      → IsCounted count (unvote polls ctx guid opts)
  unfolding unvote
  unvote-IsCounted guid opts = answered-IsCounted count poll_from_proto _ (counts_unvote ctx guid _)

  pub add_option-IsCounted :
      (guid text : GoString) (opts : Option IdempotencyOptions)
      → IsCounted count (add_option polls ctx guid text opts)
  unfolding add_option
  add_option-IsCounted guid text opts =
      answered-IsCounted count poll_from_proto _ (counts_add_option ctx guid text _)
