-- ===== src/Examples/Resuming.antt =====
-- A resumable subscription on a client, its consumer, and its end.
use advanced_imessage_go.Prelude.{
  ℕ, suc, ◌<◌, List, [], ◌∷◌, ◌++◌, true, false, none, some, ltb, ◌≡◌, ◌≢◌, refl, arith,
}
use advanced_imessage_go.Prelude.Text.{bytes}
use advanced_imessage_go.Prelude.Int.{pos}
use advanced_imessage_go.Errors.Chain.{nil, opaque, ConnectText}
use advanced_imessage_go.Transport.Runtime.{Context, ok}
use advanced_imessage_go.Transport.Subscription.{Result, Consumer, set_err, err_already_consumed}
use advanced_imessage_go.Wire.Common.{Timestamps}
use advanced_imessage_go.Wire.Changes.{
  PbFrame, PbPayload, PbMessageChange, PbMessageChangeEvent, PbCatchUpFrame, PbCatchUpPayload,
}
use advanced_imessage_go.Messages.{MessageService}
use advanced_imessage_go.Services.Events.{EventService}
use advanced_imessage_go.Resumable.{Settings, Environment, nothing}
use advanced_imessage_go.Resumable.Loop.{start, round, run}
use advanced_imessage_go.Resumable.Progress.{selected}
use advanced_imessage_go.Resumable.Connected.{Host, connected}
use advanced_imessage_go.Resumable.Connected.Rounds.{round_delivers}
use advanced_imessage_go.Resumable.Connected.Frames.{replayed, followed}
use advanced_imessage_go.Resumable.Session.{
  Goroutine, Session, opened, leave_session, hand_value, hand_error,
}
use advanced_imessage_go.Resumable.Stopping.{SameWork, run_stops}

abbrev texts : ConnectText
texts = record { code_text = λ c. bytes "status"; error_text = λ c m. m }

abbrev clock : Timestamps
clock = record {
  as_time = λ t. t.seconds;
  new_timestamp = λ t. record { seconds = t; nanos = pos 0 };
}

abbrev change : PbMessageChangeEvent
change = record {
  envelope = record {
    actor = none;
    chat_guid = bytes "iMessage;-;a";
    is_from_me = false;
    occurred_at = none;
  };
  change = PbMessageChange.read (bytes "m1") (some (record { seconds = pos 5; nanos = pos 0 }));
}

abbrev missed : PbCatchUpFrame
missed = record { sequence = 3; payload = PbCatchUpPayload.message_changed (some change) }

abbrev last : PbCatchUpFrame
last = record { sequence = 3; payload = PbCatchUpPayload.complete 3 }

abbrev latest : PbFrame PbMessageChangeEvent
latest = record { sequence = 4; payload = PbPayload.changed (some change) }

abbrev messages : MessageService ℕ
messages = record {
  send_text_message = λ ctx req s. (ok none, s);
  send_attachment_message = λ ctx req s. (ok none, s);
  send_multipart_message = λ ctx req s. (ok none, s);
  send_customized_mini_app_message = λ ctx req s. (ok none, s);
  edit_message = λ ctx req s. (ok none, s);
  unsend_message = λ ctx req s. (nil, s);
  set_reaction_message = λ ctx req s. (ok none, s);
  place_sticker_message = λ ctx req s. (ok none, s);
  notify_silenced_message = λ ctx req s. (nil, s);
  get_message = λ ctx guid s. (ok none, s);
  list_recent_messages = λ ctx filter s. (ok (record { messages = []; next_page_token = [] }), s);
  list_chat_messages =
      λ ctx chat filter s. (ok (record { messages = []; next_page_token = [] }), s);
  get_embedded_media = λ ctx chat guid s. (ok none, s);
  subscribe_message_events = λ ctx chat s. (ok (latest ∷ [], opaque (bytes "reset")), s);
  quote = λ text. text;
}

abbrev events : EventService ℕ
events = record { catch_up_events = λ ctx after s. (ok (missed ∷ last ∷ [], nil), s) }

abbrev host : Host ℕ
host = record {
  has_store = true;
  load = λ s. (nothing, s);
  save = λ n s. (nil, s);
  done = λ s. (false, s);
  accepts = λ ev s. (true, s);
  accepts_error = λ err s. (true, s);
  sleeps = λ d s. (true, s);
}

abbrev settings : Settings
settings = record { chat = []; min_backoff = pos 500000000; max_backoff = pos 30000000000 }

abbrev context : Context
context = record { deadline = none; scope = 0 }

abbrev engine : Environment ℕ
engine = connected ⦃ct = texts⦄ ⦃ts = clock⦄ messages events context host

round_delivers_example :
    (round engine settings (pos 500000000) (start engine settings 0 0)).1.sent
    ≡ []
      ++ (selected engine settings (replayed ⦃ts = clock⦄ (missed ∷ []))
          ++ followed ⦃ts = clock⦄ (latest ∷ []))
round_delivers_example =
    round_delivers ⦃ct = texts⦄ ⦃ts = clock⦄ messages events context host settings (pos 500000000)
      (start engine settings 0 0) (missed ∷ []) [] last 3 (latest ∷ []) nil (opaque (bytes "reset"))
      (λ ev t. refl) refl refl ((λ head e. cc), tt) refl (λ t. refl)

silent_at_end : (p q : List (Result ℕ)) (r : Result ℕ) → p ≡ [] → p ≡ r ∷ q → ⊥
silent_at_end p q r gone offer = cc

-- A goroutine that offers a list of results, and can give up once its context is done.
abbrev script : Goroutine (List (Result ℕ)) ℕ
script = record {
  Moves = λ c p q. (c ≡ true) × (p ≢ []) × (q ≡ []);
  Offers = λ p r q. p ≡ r ∷ q;
  Gone = λ p. p ≡ [];
  gone_still = λ c p q gone move. move.1 gone;
  gone_silent = silent_at_end;
}

abbrev failing : List (Result ℕ)
failing = Result.value 5 ∷ Result.error (opaque (bytes "load")) ∷ []

abbrev ranged : Session (List (Result ℕ)) ℕ
ranged = record (opened failing) { consumed = true; consumer = Consumer.ranging }

abbrev got_one : Session (List (Result ℕ)) ℕ
got_one = hand_value 5 (Result.error (opaque (bytes "load")) ∷ []) ranged

abbrev got_error : Session (List (Result ℕ)) ℕ
got_error = leave_session (hand_error (opaque (bytes "load")) [] got_one)

-- A second loop after that.
abbrev looped_again : Session (List (Result ℕ)) ℕ
looped_again = record got_error { err = set_err got_error.err err_already_consumed }

-- The context is done at the fourth look at it; nothing comes from the server.
abbrev fading : Environment ℕ
fading = record {
  has_store = true;
  load = λ s. (nothing, s);
  save = λ n s. (nil, s);
  done = λ s. (ltb 2 s, suc s);
  catch_up_stream = λ n s. (record { events = []; err = nil }, s);
  live_stream = λ chat s. (record { events = []; err = nil }, s);
  accepts = λ ev s. (true, s);
  accepts_error = λ err s. (true, s);
  sleeps = λ d s. (true, s);
}

fading_over : 2 < (run fading settings 2 0).world
unfolding run
fading_over = omega arith

run_stops_example : SameWork (run fading settings 9 0) (run fading settings 2 0)
run_stops_example =
    run_stops fading settings (λ s. 2 < s) (λ s h. (ground arith, omega arith)) 2 9 0 (omega arith)
      fading_over
