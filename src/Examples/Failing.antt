-- ===== src/Examples/Failing.antt =====
-- The run of send-all on a server that fails to unsend and to add a poll option.
use advanced_imessage_go.Prelude.{ℕ, ◌+◌, [], ◌∷◌, none, ◌≡◌, ◌↔◌, refl, arith}
use advanced_imessage_go.Prelude.Text.{GoString, bytes}
use advanced_imessage_go.Prelude.Int.{pos}
use advanced_imessage_go.Errors.Chain.{GoError, nil, opaque, ConnectText}
use advanced_imessage_go.Transport.Runtime.{Context, Outcome, ok, fail}
use advanced_imessage_go.Wire.Common.{Timestamps}
use advanced_imessage_go.Messages.{MessageService}
use advanced_imessage_go.Services.Attachments.{AttachmentService}
use advanced_imessage_go.Services.Polls.{PollService}
use advanced_imessage_go.SendAll.{Recorder, error_of}
use advanced_imessage_go.SendAll.Contents.{MiniApp}
use advanced_imessage_go.SendAll.Steps.{send_all}
use advanced_imessage_go.SendAll.Outcomes.{total}
use advanced_imessage_go.SendAll.Tallies.{failures_of}
use advanced_imessage_go.SendAll.Counting.{CountFailures}
use advanced_imessage_go.SendAll.Failures.{send_all_failures}

abbrev texts : ConnectText
texts = record { code_text = λ c. bytes "status"; error_text = λ c m. m }

abbrev clock : Timestamps
clock = record {
  as_time = λ t. t.seconds;
  new_timestamp = λ t. record { seconds = t; nanos = pos 0 };
}

abbrev context : Context
context = record { deadline = none; scope = 0 }

-- The state of the services is how many calls they have failed.
abbrev messages : MessageService ℕ
messages = record {
  send_text_message = λ ctx req n. (ok none, n);
  send_attachment_message = λ ctx req n. (ok none, n);
  send_multipart_message = λ ctx req n. (ok none, n);
  send_customized_mini_app_message = λ ctx req n. (ok none, n);
  edit_message = λ ctx req n. (ok none, n);
  unsend_message = λ ctx req n. (opaque (bytes "too late"), n + 1);
  set_reaction_message = λ ctx req n. (ok none, n);
  place_sticker_message = λ ctx req n. (ok none, n);
  notify_silenced_message = λ ctx req n. (nil, n);
  get_message = λ ctx guid n. (ok none, n);
  list_recent_messages = λ ctx filter n. (ok (record { messages = []; next_page_token = [] }), n);
  list_chat_messages =
      λ ctx chat filter n. (ok (record { messages = []; next_page_token = [] }), n);
  get_embedded_media = λ ctx chat guid n. (ok none, n);
  subscribe_message_events = λ ctx chat n. (ok ([], nil), n);
  quote = λ text. text;
}

abbrev attachments : AttachmentService ℕ
attachments = record {
  get_attachment_info = λ ctx guid n. (ok none, n);
  upload_attachment = λ ctx req n. (ok (record { attachment = none; companion = none }), n);
  download_attachment = λ ctx guid n. (ok ([], nil), n);
}

abbrev polls : PollService ℕ
polls = record {
  create_poll = λ ctx req n. (ok none, n);
  get_poll = λ ctx guid n. (ok none, n);
  vote_poll = λ ctx guid option key n. (ok none, n);
  unvote_poll = λ ctx guid key n. (ok none, n);
  add_poll_option = λ ctx guid text key n. (fail (opaque (bytes "closed")), n + 1);
  subscribe_poll_events = λ ctx guid n. (ok ([], nil), n);
}

counted : CountFailures (λ n. n) messages attachments polls
counted = record {
  counts_send_text = λ ctx req n. omega arith;
  counts_send_attachment = λ ctx req n. omega arith;
  counts_send_multipart = λ ctx req n. omega arith;
  counts_send_mini_app = λ ctx req n. omega arith;
  counts_edit = λ ctx req n. omega arith;
  counts_unsend = λ ctx req n. refl;
  counts_set_reaction = λ ctx req n. omega arith;
  counts_place_sticker = λ ctx req n. omega arith;
  counts_notify = λ ctx req n. omega arith;
  counts_upload = λ ctx req n. omega arith;
  counts_create = λ ctx req n. omega arith;
  counts_vote = λ ctx guid option key n. omega arith;
  counts_unvote = λ ctx guid key n. omega arith;
  counts_add_option = λ ctx guid text key n. refl;
}

abbrev no_mini_app : MiniApp
no_mini_app = record { team = []; bundle = []; url = [] }

abbrev image : Outcome GoString
image = ok (7 ∷ [])

-- The run of send-all in a chat, with an image of one byte.
abbrev all_sent : GoError × (Recorder × ℕ)
all_sent =
    send_all ⦃ct = texts⦄ ⦃ts = clock⦄ messages attachments polls context (bytes "iMessage;-;a")
      image no_mini_app (λ n. bytes "some") 0

send_all_failures_example :
    (total all_sent.1.0 ≡ 16)
    × (all_sent.1.0.failed + 0 ≡ all_sent.1.1 + failures_of (error_of image))
    × ((all_sent.0 ≡ nil) ↔ (all_sent.1.0.failed ≡ 0))
send_all_failures_example =
    send_all_failures ⦃ct = texts⦄ ⦃ts = clock⦄ messages attachments polls context
      (bytes "iMessage;-;a") image no_mini_app (λ n. n) counted (λ n. bytes "some") 0
