-- ===== src/SendAll/Failures/Parts.antt =====
-- The failures of the first eight numbered parts of examples/send-all/main.go.
use advanced_imessage_go.Prelude.{
  ℕ, ◌+◌, true, false, List, [], ◌∷◌, not, ◌&&◌, none, some, ◌≡◌, refl, inl, inr, arith, All,
}
use advanced_imessage_go.Prelude.Text.{GoString, bytes, is_empty}
use advanced_imessage_go.ChatGuid.{ChatGuid}
use advanced_imessage_go.Errors.Chain.{GoError, ConnectText}
use advanced_imessage_go.Transport.Runtime.{Outcome, ok, fail, Context, ◌>>◌}
use advanced_imessage_go.Model.Kinds.{reaction_like}
use advanced_imessage_go.Model.Message.{Message}
use advanced_imessage_go.Model.Attachment.{AttachmentInput}
use advanced_imessage_go.Model.MessageInput.{Reaction}
use advanced_imessage_go.Wire.Common.{Timestamps}
use advanced_imessage_go.Messages.{MessageService}
use advanced_imessage_go.Messages.Sending.{
  send_text, send_attachment, send_multipart, edit, add_reaction, remove_reaction, set_reaction,
  place_sticker,
}
use advanced_imessage_go.Messages.Reactions.{IsValid}
use advanced_imessage_go.Services.Attachments.{AttachmentService, upload}
use advanced_imessage_go.Services.Polls.{PollService}
use advanced_imessage_go.SendAll.{
  Recorder, error_of, calling, record_step, skip_step, recorded_error,
}
use advanced_imessage_go.SendAll.Contents.{
  rich_options, parts_of, reactions, edited, sticker_of, MiniApp,
}
use advanced_imessage_go.SendAll.Steps.{
  plain_text, rich_text, upload_pixel, attach, multipart, edit_anchor, react, react_to,
  add_reactions, stick,
}
use advanced_imessage_go.SendAll.Counting.{
  CountFailures, send_text-IsCounted, send_attachment-IsCounted, send_multipart-IsCounted,
  edit-IsCounted, place_sticker-IsCounted, set_reaction-IsCounted, upload-IsCounted,
}
use advanced_imessage_go.SendAll.Tallies.{
  failures_of, failed-noted, IsCountedError, Tallies, recorded-Tallies, recorded_error-Tallies,
  branch-Tallies, unless-Tallies, when-Tallies,
}

-- All reactions that the program sends are valid.
reactions-IsValid : All IsValid reactions
reactions-IsValid = (inl (inl refl), (inl (inr (inl refl)), (inr (refl, λ e. cc), tt)))

module _ ⦃ct : ConnectText⦄ ⦃ts : Timestamps⦄ {S : Type 0} (msgs : MessageService S)
    (attachments : AttachmentService S) (polls : PollService S) (ctx : Context) (chat : ChatGuid)
    (png : Outcome GoString) (mini : MiniApp) (count : S → ℕ)
    (counts : CountFailures count msgs attachments polls) where
  add_reactions-IsCountedError :
      (guid : GoString) (rs : List Reaction)
      → All IsValid rs
      → IsCountedError count (add_reactions msgs attachments polls ctx chat png mini guid rs)
  add_reactions-IsCountedError guid [] valid s = omega arith
  add_reactions-IsCountedError guid (r ∷ rs) valid s =
      by_reply (add_reaction msgs ctx chat guid r none s).0
        (unfold add_reaction in set_reaction-IsCounted ctx chat count counts guid r true valid.0 s)
        (add_reactions-IsCountedError guid rs valid.1)
    where
      after : S
      after = (add_reaction msgs ctx chat guid r none s).1

      by_reply :
          (reply : Outcome Message)
          → count after ≡ count s + failures_of (error_of reply)
          → IsCountedError count (add_reactions msgs attachments polls ctx chat png mini guid rs)
          → let out = elim reply as (λ x. GoError × S) [
            | fail err ↦ (err, after)
            | ok _ ↦ add_reactions msgs attachments polls ctx chat png mini guid rs after
          ] in
            count out.1 ≡ count s + failures_of out.0
      by_reply (fail err) k rest = k
      by_reply (ok m) k rest = omega (arith, k, rest after)

  pub plain_text-Tallies : Tallies count (plain_text msgs attachments polls ctx chat png mini)
  unfolding plain_text calling record_step
  plain_text-Tallies r s =
      let text = bytes "1/ plain text from send-all" in
      omega (
        arith,
        failed-noted (error_of (send_text msgs ctx chat text none s).0) r,
        send_text-IsCounted ctx chat count counts text none s,
      )

  pub rich_text-Tallies :
      (anchor : GoString)
      → Tallies count (rich_text msgs attachments polls ctx chat png mini anchor)
  unfolding rich_text
  rich_text-Tallies anchor =
      let text = bytes "2/ rich reply https://photon.codes" in
      let opts = some (rich_options anchor) in
      recorded-Tallies count (send_text msgs ctx chat text opts)
        (send_text-IsCounted ctx chat count counts text opts)

  -- An image that could not be encoded is a failure without a call.
  pub upload_pixel-tallies :
      (o : Outcome GoString) (r : Recorder) (s : S)
      → let out = upload_pixel msgs attachments polls ctx chat png mini o (r, s) in
        out.1.0.failed + count s ≡ r.failed + count out.1.1 + failures_of (error_of o)
  unfolding calling record_step
  upload_pixel-tallies (fail err) r s = omega (arith, failed-noted err r)
  upload_pixel-tallies (ok pixel) r s =
      let input : AttachmentInput = record {
        file_name = bytes "pixel.png";
        contents = pixel;
        companion = none;
      } in
      omega (
        arith,
        failed-noted (error_of (upload attachments ctx input s).0) r,
        upload-IsCounted ctx chat count counts input s,
      )

  pub attach-Tallies :
      (guid : GoString) → Tallies count (attach msgs attachments polls ctx chat png mini guid)
  unfolding attach
  attach-Tallies guid =
      unless-Tallies count (is_empty guid) (send_attachment msgs ctx chat guid none)
        (send_attachment-IsCounted ctx chat count counts guid none)

  pub multipart-Tallies :
      (guid : GoString) → Tallies count (multipart msgs attachments polls ctx chat png mini guid)
  unfolding multipart
  multipart-Tallies guid =
      recorded-Tallies count (send_multipart msgs ctx chat (parts_of guid) none)
        (send_multipart-IsCounted ctx chat count counts (parts_of guid) none)

  pub edit_anchor-Tallies :
      (anchor : GoString)
      → Tallies count (edit_anchor msgs attachments polls ctx chat png mini anchor)
  unfolding edit_anchor
  edit_anchor-Tallies anchor =
      let text = bytes "1/ plain text (edited)" in
      unless-Tallies count (is_empty anchor) (edit msgs ctx chat anchor text (some edited))
        (edit-IsCounted ctx chat count counts anchor text (some edited))

  react_to-Tallies :
      (anchor : GoString) → Tallies count (react_to msgs attachments polls ctx chat png mini anchor)
  unfolding react_to remove_reaction
  react_to-Tallies anchor r s =
      let like : Reaction = record { kind = reaction_like; emoji = [] } in
      let adding = add_reactions msgs attachments polls ctx chat png mini anchor reactions in
      let after = recorded_error adding (r, s) in
      omega (
        arith,
        recorded_error-Tallies count adding
            (add_reactions-IsCountedError anchor reactions reactions-IsValid) r s,
        recorded-Tallies count (set_reaction msgs ctx chat anchor like false none)
            (set_reaction-IsCounted ctx chat count counts anchor like false (inl (inr (inl refl))))
            after.1.0 after.1.1,
      )

  pub react-Tallies :
      (anchor : GoString) → Tallies count (react msgs attachments polls ctx chat png mini anchor)
  unfolding react
  react-Tallies anchor =
      branch-Tallies count (is_empty anchor) (skip_step >> skip_step)
        (react_to msgs attachments polls ctx chat png mini anchor) (λ r s. unfold skip_step in refl)
        (react_to-Tallies anchor)

  pub stick-Tallies :
      (anchor guid : GoString)
      → Tallies count (stick msgs attachments polls ctx chat png mini anchor guid)
  unfolding stick
  stick-Tallies anchor guid =
      when-Tallies count (not (is_empty anchor) && not (is_empty guid))
        (place_sticker msgs ctx chat anchor (sticker_of guid) none)
        (place_sticker-IsCounted ctx chat count counts anchor (sticker_of guid) none)
