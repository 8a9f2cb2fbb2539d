-- ===== src/SendAll/Failures.antt =====
-- The failures that a run of examples/send-all/main.go records are those of the server.
mod Parts
use advanced_imessage_go.Prelude.{
  ℕ, ◌+◌, true, false, List, [], ◌∷◌, not, ◌&&◌, none, some, ◌≡◌, ◌↔◌, refl, inl, inr, arith, All,
}
use advanced_imessage_go.Prelude.Text.{GoString, bytes, is_empty}
use advanced_imessage_go.ChatGuid.{ChatGuid}
use advanced_imessage_go.Errors.Chain.{GoError, nil, ConnectText}
use advanced_imessage_go.Transport.Runtime.{Outcome, ok, fail, Context, ◌>>◌}
use advanced_imessage_go.Model.Kinds.{reaction_like}
use advanced_imessage_go.Model.Message.{Message}
use advanced_imessage_go.Model.Attachment.{AttachmentInput}
use advanced_imessage_go.Model.MessageInput.{Reaction}
use advanced_imessage_go.Model.Poll.{Poll, PollOption}
use advanced_imessage_go.Wire.Common.{Timestamps}
use advanced_imessage_go.Messages.{MessageService}
use advanced_imessage_go.Messages.Sending.{
  send_text, unsend, send_attachment, send_multipart, send_customized_mini_app, edit, add_reaction,
  remove_reaction, set_reaction, place_sticker, notify_silenced,
}
use advanced_imessage_go.Messages.Reactions.{IsValid}
use advanced_imessage_go.Services.Attachments.{AttachmentService, upload}
use advanced_imessage_go.Services.Polls.{PollService, create, vote, unvote, add_option}
use advanced_imessage_go.SendAll.{
  Recorder, new_recorder, noted, error_of, calling, record_step, skip_step, recorded,
  recorded_error,
}
use advanced_imessage_go.SendAll.Contents.{
  rich_options, parts_of, reactions, edited, sticker_of, mini_app_message, MiniApp,
}
use advanced_imessage_go.SendAll.Steps.{
  plain_text, rich_text, upload_pixel, attach, multipart, edit_anchor, react, react_to,
  add_reactions, stick, unsend_sent, throwaway, notify, vote_first, with_poll, poll_steps, mini_app,
  steps, send_all,
}
use advanced_imessage_go.SendAll.Outcomes.{total}
use advanced_imessage_go.SendAll.Counts.{send_all_counts}
use advanced_imessage_go.SendAll.Counting.{
  CountFailures, send_text-IsCounted, send_attachment-IsCounted, send_multipart-IsCounted,
  send_customized_mini_app-IsCounted, edit-IsCounted, unsend-IsCountedError,
  place_sticker-IsCounted, notify_silenced-IsCountedError, set_reaction-IsCounted, upload-IsCounted,
  create-IsCounted, vote-IsCounted, unvote-IsCounted, add_option-IsCounted,
}
use advanced_imessage_go.SendAll.Tallies.{
  failures_of, failed-noted, IsCountedError, Tallies, skip_step-Tallies, recorded-Tallies,
  recorded_error-Tallies, branch-Tallies, unless-Tallies, when-Tallies,
}
use advanced_imessage_go.SendAll.Failures.Parts.{
  plain_text-Tallies, rich_text-Tallies, upload_pixel-tallies, attach-Tallies, multipart-Tallies,
  edit_anchor-Tallies, react-Tallies, stick-Tallies,
}

from_zero : (a b c : ℕ) → a ≡ 0 + b + c → a ≡ b + c
from_zero a b c h = omega arith

module _ ⦃ct : ConnectText⦄ ⦃ts : Timestamps⦄ {S : Type 0} (msgs : MessageService S)
    (attachments : AttachmentService S) (polls : PollService S) (ctx : Context) (chat : ChatGuid)
    (png : Outcome GoString) (mini : MiniApp) (count : S → ℕ)
    (counts : CountFailures count msgs attachments polls) where
  unsend_sent-tallies :
      (o : Outcome Message) (r : Recorder) (s : S)
      → let out = unsend_sent msgs attachments polls ctx chat png mini o (r, s) in
        out.1.0.failed + count s ≡ r.failed + count out.1.1 + failures_of (error_of o)
  unfolding record_step
  unsend_sent-tallies (fail err) r s = omega (arith, failed-noted err r)
  unsend_sent-tallies (ok m) r s = omega (
    arith,
    recorded_error-Tallies count (unsend msgs ctx chat m.guid none)
        (unsend-IsCountedError ctx chat count counts m.guid none) r s,
  )

  throwaway-Tallies : Tallies count (throwaway msgs attachments polls ctx chat png mini)
  unfolding throwaway calling
  throwaway-Tallies r s =
      let text = bytes "9/ throwaway to be unsent" in
      let (sent, s') = send_text msgs ctx chat text none s in
      omega (
        arith,
        unsend_sent-tallies sent r s',
        send_text-IsCounted ctx chat count counts text none s,
      )

  notify-Tallies :
      (anchor : GoString) → Tallies count (notify msgs attachments polls ctx chat png mini anchor)
  unfolding notify
  notify-Tallies anchor =
      let m = notify_silenced msgs ctx chat anchor none in
      branch-Tallies count (is_empty anchor) skip_step (recorded_error m) (skip_step-Tallies count)
        (recorded_error-Tallies count m
          (notify_silenced-IsCountedError ctx chat count counts anchor none))

  vote_first-Tallies :
      (poll : GoString) (options : List PollOption)
      → Tallies count (vote_first msgs attachments polls ctx chat png mini poll options)
  vote_first-Tallies poll [] = skip_step-Tallies count
  vote_first-Tallies poll (option ∷ rest) =
      recorded-Tallies count (vote polls ctx poll option.option_id none)
        (vote-IsCounted ctx chat count counts poll option.option_id none)

  with_poll-Tallies :
      (o : Outcome Poll) → Tallies count (with_poll msgs attachments polls ctx chat png mini o)
  with_poll-Tallies (fail err) r s = unfold skip_step in refl
  with_poll-Tallies (ok poll) r s =
      let guid = poll.poll_message_guid in
      let voted = vote_first msgs attachments polls ctx chat png mini guid poll.options (r, s) in
      let adding = add_option polls ctx guid (bytes "Gamma") none in
      let added = recorded adding voted.1 in
      omega (
        arith,
        vote_first-Tallies guid poll.options r s,
        recorded-Tallies count adding
            (add_option-IsCounted ctx chat count counts guid (bytes "Gamma") none) voted.1.0
            voted.1.1,
        recorded-Tallies count (unvote polls ctx guid none)
            (unvote-IsCounted ctx chat count counts guid none) added.1.0 added.1.1,
      )

  poll_steps-Tallies : Tallies count (poll_steps msgs attachments polls ctx chat png mini)
  unfolding poll_steps calling record_step
  poll_steps-Tallies r s =
      let choices = bytes "Alpha" ∷ bytes "Beta" ∷ [] in
      let (poll, s') = create polls ctx chat (bytes "send-all poll") choices none s in
      let r' = noted (error_of poll) r in
      omega (
        arith,
        failed-noted (error_of poll) r,
        create-IsCounted ctx chat count counts (bytes "send-all poll") choices none s,
        with_poll-Tallies poll r' s',
      )

  mini_app-Tallies : Tallies count (mini_app msgs attachments polls ctx chat png mini)
  unfolding mini_app
  mini_app-Tallies =
      when-Tallies count
        (not (is_empty mini.team) && (not (is_empty mini.bundle) && not (is_empty mini.url)))
        (send_customized_mini_app msgs ctx chat (mini_app_message mini) none)
        (send_customized_mini_app-IsCounted ctx chat count counts (mini_app_message mini) none)

  steps-tallies :
      (r : Recorder) (s : S)
      → let out = steps msgs attachments polls ctx chat png mini (r, s) in
        out.1.0.failed + count s ≡ r.failed + count out.1.1 + failures_of (error_of png)
  unfolding steps
  steps-tallies r s =
      let a = plain_text msgs attachments polls ctx chat png mini (r, s) in
      let b = rich_text msgs attachments polls ctx chat png mini a.0 a.1 in
      let c = upload_pixel msgs attachments polls ctx chat png mini png b.1 in
      let d = attach msgs attachments polls ctx chat png mini c.0 c.1 in
      let e = multipart msgs attachments polls ctx chat png mini c.0 d.1 in
      let f = edit_anchor msgs attachments polls ctx chat png mini a.0 e.1 in
      let g = react msgs attachments polls ctx chat png mini a.0 f.1 in
      let h = stick msgs attachments polls ctx chat png mini a.0 c.0 g.1 in
      let i = throwaway msgs attachments polls ctx chat png mini h.1 in
      let j = notify msgs attachments polls ctx chat png mini a.0 i.1 in
      let k = poll_steps msgs attachments polls ctx chat png mini j.1 in
      omega (
        arith,
        plain_text-Tallies msgs attachments polls ctx chat png mini count counts r s,
        rich_text-Tallies msgs attachments polls ctx chat png mini count counts a.0 a.1.0 a.1.1,
        upload_pixel-tallies msgs attachments polls ctx chat png mini count counts png b.1.0 b.1.1,
        attach-Tallies msgs attachments polls ctx chat png mini count counts c.0 c.1.0 c.1.1,
        multipart-Tallies msgs attachments polls ctx chat png mini count counts c.0 d.1.0 d.1.1,
        edit_anchor-Tallies msgs attachments polls ctx chat png mini count counts a.0 e.1.0 e.1.1,
        react-Tallies msgs attachments polls ctx chat png mini count counts a.0 f.1.0 f.1.1,
        stick-Tallies msgs attachments polls ctx chat png mini count counts a.0 c.0 g.1.0 g.1.1,
        throwaway-Tallies h.1.0 h.1.1,
        notify-Tallies a.0 i.1.0 i.1.1,
        poll_steps-Tallies j.1.0 j.1.1,
        mini_app-Tallies k.1.0 k.1.1,
      )

  -- Where `count` is the number of calls that the services have failed: a run records sixteen
  -- outcomes, each passed, failed or skipped; the failed ones are as many as the calls that the
  -- services fail during the run, and one more where the image could not be encoded; and the run
  -- ends without an error exactly if there are none.
  pub send_all_failures :
      (decimal : ℕ → GoString) (s : S)
      → let out = send_all msgs attachments polls ctx chat png mini decimal s in
        (total out.1.0 ≡ 16)
        × (out.1.0.failed + count s ≡ count out.1.1 + failures_of (error_of png))
        × ((out.0 ≡ nil) ↔ (out.1.0.failed ≡ 0))
  unfolding send_all
  send_all_failures decimal s =
      let (sixteen, clean) = send_all_counts msgs attachments polls ctx chat png mini decimal s in
      (sixteen, from_zero _ _ _ (steps-tallies new_recorder s), clean)
