-- ===== src/SendAll/Counts.antt =====
-- How many outcomes examples/send-all/main.go records.
use advanced_imessage_go.Prelude.{
  ℕ, List, [], ◌∷◌, not, ◌&&◌, none, some, ◌≡◌, ◌↔◌, inl, inr, arith, ltb, Bool-cases,
}
use advanced_imessage_go.Prelude.Text.{GoString, bytes, is_empty}
use advanced_imessage_go.ChatGuid.{ChatGuid}
use advanced_imessage_go.Errors.Chain.{nil, ConnectText}
use advanced_imessage_go.Transport.Runtime.{Outcome, ok, fail, Context, ◌>>◌}
use advanced_imessage_go.Model.Message.{Message}
use advanced_imessage_go.Model.Poll.{Poll, PollOption}
use advanced_imessage_go.Wire.Common.{Timestamps}
use advanced_imessage_go.Messages.{MessageService}
use advanced_imessage_go.Model.Kinds.{reaction_like}
use advanced_imessage_go.Messages.Sending.{
  send_text, unsend, send_attachment, send_customized_mini_app, edit, remove_reaction,
  place_sticker, notify_silenced,
}
use advanced_imessage_go.Services.Attachments.{AttachmentService}
use advanced_imessage_go.Services.Polls.{PollService, create, vote, unvote, add_option}
use advanced_imessage_go.SendAll.{
  Recorder, new_recorder, noted, summary, error_of, calling, record_step, skip_step, recorded,
  recorded_error,
}
use advanced_imessage_go.SendAll.Contents.{reactions, edited, sticker_of, mini_app_message, MiniApp}
use advanced_imessage_go.SendAll.Steps.{
  plain_text, rich_text, upload_pixel, attach, multipart, edit_anchor, react, react_to,
  add_reactions, stick, unsend_sent, throwaway, notify, vote_first, with_poll, poll_steps, mini_app,
  steps, send_all,
}
use advanced_imessage_go.SendAll.Outcomes.{
  total, total-noted, Adds, record_step-Adds, skip_step-Adds, recorded-Adds, recorded_error-Adds,
  branch-Adds, unless-Adds, when-Adds,
}

module _ ⦃ct : ConnectText⦄ ⦃ts : Timestamps⦄ {S : Type 0} (msgs : MessageService S)
    (attachments : AttachmentService S) (polls : PollService S) (ctx : Context) (chat : ChatGuid)
    (png : Outcome GoString) (mini : MiniApp) where
  plain_text-Adds : Adds 1 (plain_text msgs attachments polls ctx chat png mini)
  unfolding plain_text calling record_step
  plain_text-Adds r s = total-noted _ r

  rich_text-Adds :
      (anchor : GoString) → Adds 1 (rich_text msgs attachments polls ctx chat png mini anchor)
  unfolding rich_text recorded calling record_step
  rich_text-Adds anchor r s = total-noted _ r

  upload_pixel-Adds :
      (o : Outcome GoString) → Adds 1 (upload_pixel msgs attachments polls ctx chat png mini o)
  unfolding calling record_step
  upload_pixel-Adds (fail err) r s = total-noted err r
  upload_pixel-Adds (ok pixel) r s = total-noted _ r

  attach-Adds : (guid : GoString) → Adds 1 (attach msgs attachments polls ctx chat png mini guid)
  unfolding attach
  attach-Adds guid = unless-Adds (is_empty guid) (send_attachment msgs ctx chat guid none)

  multipart-Adds :
      (guid : GoString) → Adds 1 (multipart msgs attachments polls ctx chat png mini guid)
  unfolding multipart recorded calling record_step
  multipart-Adds guid r s = total-noted _ r

  edit_anchor-Adds :
      (anchor : GoString) → Adds 1 (edit_anchor msgs attachments polls ctx chat png mini anchor)
  unfolding edit_anchor
  edit_anchor-Adds anchor =
      unless-Adds (is_empty anchor)
        (edit msgs ctx chat anchor (bytes "1/ plain text (edited)") (some edited))

  react_to-Adds :
      (anchor : GoString) → Adds 2 (react_to msgs attachments polls ctx chat png mini anchor)
  unfolding react_to
  react_to-Adds anchor r s =
      let adding = add_reactions msgs attachments polls ctx chat png mini anchor reactions in
      let after = recorded_error adding (r, s) in
      omega (
        arith,
        recorded_error-Adds adding r s,
        recorded-Adds
            (remove_reaction msgs ctx chat anchor (record { kind = reaction_like; emoji = [] })
              none)
            after.1.0 after.1.1,
      )

  react-Adds : (anchor : GoString) → Adds 2 (react msgs attachments polls ctx chat png mini anchor)
  unfolding react
  react-Adds anchor =
      branch-Adds 2 (is_empty anchor) (skip_step >> skip_step)
        (react_to msgs attachments polls ctx chat png mini anchor)
        (λ r s. unfold skip_step in omega arith) (react_to-Adds anchor)

  stick-Adds :
      (anchor guid : GoString) → Adds 1 (stick msgs attachments polls ctx chat png mini anchor guid)
  unfolding stick
  stick-Adds anchor guid =
      when-Adds (not (is_empty anchor) && not (is_empty guid))
        (place_sticker msgs ctx chat anchor (sticker_of guid) none)

  unsend_sent-Adds :
      (o : Outcome Message) → Adds 1 (unsend_sent msgs attachments polls ctx chat png mini o)
  unsend_sent-Adds (fail err) = record_step-Adds err
  unsend_sent-Adds (ok m) = recorded_error-Adds (unsend msgs ctx chat m.guid none)

  throwaway-Adds : Adds 1 (throwaway msgs attachments polls ctx chat png mini)
  unfolding throwaway calling
  throwaway-Adds r s =
      let (sent, s') = send_text msgs ctx chat (bytes "9/ throwaway to be unsent") none s in
      unsend_sent-Adds sent r s'

  notify-Adds :
      (anchor : GoString) → Adds 1 (notify msgs attachments polls ctx chat png mini anchor)
  unfolding notify
  notify-Adds anchor =
      let m = notify_silenced msgs ctx chat anchor none in
      branch-Adds 1 (is_empty anchor) skip_step (recorded_error m) skip_step-Adds
        (recorded_error-Adds m)

  vote_first-Adds :
      (poll : GoString) (options : List PollOption)
      → Adds 1 (vote_first msgs attachments polls ctx chat png mini poll options)
  vote_first-Adds poll [] = skip_step-Adds
  vote_first-Adds poll (option ∷ rest) = recorded-Adds (vote polls ctx poll option.option_id none)

  with_poll-Adds :
      (o : Outcome Poll) → Adds 3 (with_poll msgs attachments polls ctx chat png mini o)
  with_poll-Adds (fail err) r s = unfold skip_step in omega arith
  with_poll-Adds (ok poll) r s =
      let guid = poll.poll_message_guid in
      let voted = vote_first msgs attachments polls ctx chat png mini guid poll.options (r, s) in
      let adding = add_option polls ctx guid (bytes "Gamma") none in
      let added = recorded adding voted.1 in
      omega (
        arith,
        vote_first-Adds guid poll.options r s,
        recorded-Adds adding voted.1.0 voted.1.1,
        recorded-Adds (unvote polls ctx guid none) added.1.0 added.1.1,
      )

  poll_steps-Adds : Adds 4 (poll_steps msgs attachments polls ctx chat png mini)
  unfolding poll_steps calling record_step
  poll_steps-Adds r s =
      let (poll, s') =
        create polls ctx chat (bytes "send-all poll") (bytes "Alpha" ∷ bytes "Beta" ∷ []) none s in
      let r' = noted (error_of poll) r in
      omega (arith, total-noted (error_of poll) r, with_poll-Adds poll r' s')

  mini_app-Adds : Adds 1 (mini_app msgs attachments polls ctx chat png mini)
  unfolding mini_app
  mini_app-Adds =
      when-Adds
        (not (is_empty mini.team) && (not (is_empty mini.bundle) && not (is_empty mini.url)))
        (send_customized_mini_app msgs ctx chat (mini_app_message mini) none)

  steps-Adds : Adds 16 (steps msgs attachments polls ctx chat png mini)
  unfolding steps
  steps-Adds r s =
      let a = plain_text msgs attachments polls ctx chat png mini (r, s) in
      let b = rich_text msgs attachments polls ctx chat png mini a.0 a.1 in
      let c = upload_pixel msgs attachments polls ctx chat png mini png b.1 in
      let d = attach msgs attachments polls ctx chat png mini c.0 c.1 in
      let e = multipart msgs attachments polls ctx chat png mini c.0 d.1 in
      let f = edit_anchor msgs attachments polls ctx chat png mini a.0 e.1 in
      let g = react msgs attachments polls ctx chat png mini a.0 f.1 in
      let h = stick msgs attachments polls ctx chat png mini a.0 c.0 g.1 in
      let i = throwaway msgs attachments polls ctx chat png mini h.1 in
      let j = notify msgs attachments polls ctx chat png mini a.0 i.1 in
      let k = poll_steps msgs attachments polls ctx chat png mini j.1 in
      omega (
        arith,
        plain_text-Adds r s,
        rich_text-Adds a.0 a.1.0 a.1.1,
        upload_pixel-Adds png b.1.0 b.1.1,
        attach-Adds c.0 c.1.0 c.1.1,
        multipart-Adds c.0 d.1.0 d.1.1,
        edit_anchor-Adds a.0 e.1.0 e.1.1,
        react-Adds a.0 f.1.0 f.1.1,
        stick-Adds a.0 c.0 g.1.0 g.1.1,
        throwaway-Adds h.1.0 h.1.1,
        notify-Adds a.0 i.1.0 i.1.1,
        poll_steps-Adds j.1.0 j.1.1,
        mini_app-Adds k.1.0 k.1.1,
      )

  summary_iff : (decimal : ℕ → GoString) (r : Recorder) → (summary decimal r ≡ nil) ↔ (r.failed ≡ 0)
  unfolding summary
  summary_iff decimal r = elim (Bool-cases (ltb 0 r.failed)) [
    | inl e ↦ (λ h. absurd (ground arith), λ h. ground arith)
    | inr e ↦ (λ h. ground arith, λ h. ground arith)
  ]

  -- Every run accounts for all of its steps: whatever the server replies, it records sixteen
  -- outcomes, each passed, failed or skipped, and it ends with an error exactly if one of them
  -- failed.
  pub send_all_counts :
      (decimal : ℕ → GoString) (s : S)
      → (total (send_all msgs attachments polls ctx chat png mini decimal s).1.0 ≡ 16)
        × (((send_all msgs attachments polls ctx chat png mini decimal s).0 ≡ nil)
            ↔ ((send_all msgs attachments polls ctx chat png mini decimal s).1.0.failed ≡ 0))
  unfolding send_all
  send_all_counts decimal s =
      let r = (steps msgs attachments polls ctx chat png mini (new_recorder, s)).1.0 in
      (steps-Adds new_recorder s, summary_iff decimal r)
