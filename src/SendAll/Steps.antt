-- ===== src/SendAll/Steps.antt =====
-- examples/send-all/main.go: the numbered steps of `run`, and `runPollSteps`.
use advanced_imessage_go.Prelude.{ℕ, List, [], ◌∷◌, not, ◌&&◌, none, some, if◌then◌else◌}
use advanced_imessage_go.Prelude.Text.{GoString, bytes, is_empty}
use advanced_imessage_go.ChatGuid.{ChatGuid}
use advanced_imessage_go.Errors.Chain.{GoError, nil, ConnectText}
use advanced_imessage_go.Transport.Runtime.{Action, Outcome, ok, fail, Context, ◌>>=◌, ◌>>◌, pure}
use advanced_imessage_go.Model.Kinds.{reaction_like}
use advanced_imessage_go.Model.Message.{Message}
use advanced_imessage_go.Model.MessageInput.{Reaction}
use advanced_imessage_go.Model.Attachment.{UploadAttachmentResult}
use advanced_imessage_go.Model.Poll.{Poll, PollOption}
use advanced_imessage_go.Wire.Common.{Timestamps}
use advanced_imessage_go.Messages.{MessageService}
use advanced_imessage_go.Messages.Sending.{
  send_text, send_attachment, send_multipart, send_customized_mini_app, edit, unsend, add_reaction,
  remove_reaction, place_sticker, notify_silenced,
}
use advanced_imessage_go.Services.Attachments.{AttachmentService, upload}
use advanced_imessage_go.Services.Polls.{PollService, create, vote, unvote, add_option}
use advanced_imessage_go.SendAll.Contents.{
  rich_options, parts_of, edited, reactions, sticker_of, MiniApp, mini_app_message,
}
use advanced_imessage_go.SendAll.{
  Recorder, summary, new_recorder, error_of, Run, calling, record_step, skip_step, recorded,
  recorded_error,
}

-- The GUIDs of results; a failed call leaves the zero value.
abbrev guid_of : Outcome Message → GoString
guid_of (ok m) = m.guid
guid_of (fail err) = []

abbrev uploaded_guid : Outcome UploadAttachmentResult → GoString
uploaded_guid (ok res) = res.attachment.guid
uploaded_guid (fail err) = []

-- `png` is the result of `pngPixel`.
module _ ⦃ct : ConnectText⦄ ⦃ts : Timestamps⦄ {S : Type 0} (msgs : MessageService S)
    (attachments : AttachmentService S) (polls : PollService S) (ctx : Context) (chat : ChatGuid)
    (png : Outcome GoString) (mini : MiniApp) where
  -- 1 and 2.
  unfoldable pub plain_text : Run S GoString
  unfolding calling record_step
  plain_text = do
    sent ← calling (send_text msgs ctx chat (bytes "1/ plain text from send-all") none)
    record_step (error_of sent)
    pure (guid_of sent)

  unfoldable pub rich_text : GoString → Run S Unit
  unfolding recorded
  rich_text anchor = recorded (
      send_text msgs ctx chat (bytes "2/ rich reply https://photon.codes")
        (some (rich_options anchor)))

  -- 3.
  abbrev pub upload_pixel : Outcome GoString → Run S GoString
  upload_pixel (fail err) = do record_step err; pure []
  upload_pixel (ok pixel) = do
    res ← calling (
        upload attachments ctx
          (record { file_name = bytes "pixel.png"; contents = pixel; companion = none }))
    record_step (error_of res)
    pure (uploaded_guid res)

  -- 4 to 6.
  unfoldable pub attach : GoString → Run S Unit
  unfolding recorded skip_step
  attach attachment =
      if is_empty attachment
      then skip_step
      else recorded (send_attachment msgs ctx chat attachment none)

  unfoldable pub multipart : GoString → Run S Unit
  unfolding recorded
  multipart attachment = recorded (send_multipart msgs ctx chat (parts_of attachment) none)

  unfoldable pub edit_anchor : GoString → Run S Unit
  unfolding recorded skip_step
  edit_anchor anchor =
      if is_empty anchor
      then skip_step
      else recorded (edit msgs ctx chat anchor (bytes "1/ plain text (edited)") (some edited))

  -- The loop over the reactions, which breaks at the first failure.
  abbrev pub add_reactions : GoString → List Reaction → Action S GoError
  add_reactions anchor [] s = (nil, s)
  add_reactions anchor (reaction ∷ rest) s =
      let (reply, s') = add_reaction msgs ctx chat anchor reaction none s in
      elim reply [ fail err ↦ (err, s') | ok _ ↦ add_reactions anchor rest s' ]

  -- 7.
  unfoldable pub react_to : GoString → Run S Unit
  unfolding recorded recorded_error
  react_to anchor = do
    recorded_error (add_reactions anchor reactions)
    recorded
        (remove_reaction msgs ctx chat anchor (record { kind = reaction_like; emoji = [] }) none)

  unfoldable pub react : GoString → Run S Unit
  unfolding react_to skip_step
  react anchor = if is_empty anchor then skip_step >> skip_step else react_to anchor

  -- 8.
  unfoldable pub stick : GoString → GoString → Run S Unit
  unfolding recorded skip_step
  stick anchor attachment =
      if not (is_empty anchor) && not (is_empty attachment)
      then recorded (place_sticker msgs ctx chat anchor (sticker_of attachment) none)
      else skip_step

  -- 9.
  abbrev pub unsend_sent : Outcome Message → Run S Unit
  unsend_sent (fail err) = record_step err
  unsend_sent (ok m) = recorded_error (unsend msgs ctx chat m.guid none)

  unfoldable pub throwaway : Run S Unit
  unfolding calling record_step recorded_error
  throwaway = do
    sent ← calling (send_text msgs ctx chat (bytes "9/ throwaway to be unsent") none)
    unsend_sent sent

  -- 10.
  unfoldable pub notify : GoString → Run S Unit
  unfolding recorded_error skip_step
  notify anchor =
      if is_empty anchor
      then skip_step
      else recorded_error (notify_silenced msgs ctx chat anchor none)

  -- 11.
  abbrev pub vote_first : GoString → List PollOption → Run S Unit
  vote_first poll [] = skip_step
  vote_first poll (option ∷ _) = recorded (vote polls ctx poll option.option_id none)

  abbrev pub with_poll : Outcome Poll → Run S Unit
  with_poll (fail err) = skip_step >> skip_step >> skip_step
  with_poll (ok poll) = do
    vote_first poll.poll_message_guid poll.options
    recorded (add_option polls ctx poll.poll_message_guid (bytes "Gamma") none)
    recorded (unvote polls ctx poll.poll_message_guid none)

  unfoldable pub poll_steps : Run S Unit
  unfolding recorded calling record_step skip_step
  poll_steps = do
    poll ←
        calling
          (create polls ctx chat (bytes "send-all poll") (bytes "Alpha" ∷ bytes "Beta" ∷ []) none)
    record_step (error_of poll)
    with_poll poll

  -- 12.
  unfoldable pub mini_app : Run S Unit
  unfolding recorded skip_step
  mini_app =
      if not (is_empty mini.team) && (not (is_empty mini.bundle) && not (is_empty mini.url))
      then recorded (send_customized_mini_app msgs ctx chat (mini_app_message mini) none)
      else skip_step

  -- All steps.
  unfoldable pub steps : Run S Unit
  unfolding plain_text rich_text attach multipart edit_anchor react stick throwaway notify
      poll_steps mini_app
  steps = do
    anchor ← plain_text
    rich_text anchor
    attachment ← upload_pixel png
    attach attachment
    multipart attachment
    edit_anchor anchor
    react anchor
    stick anchor attachment
    throwaway
    notify anchor
    poll_steps
    mini_app

  -- `run` from the first message on.
  unfoldable pub send_all : (ℕ → GoString) → S → GoError × (Recorder × S)
  unfolding steps
  send_all decimal s = let (done, (r, s')) = steps (new_recorder, s) in (summary decimal r, (r, s'))
