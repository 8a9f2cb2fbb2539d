-- ===== src/Resumable.antt =====
-- resumable.go: the engine behind `ResumableMessages`, which replays missed events, attaches a
-- live subscription, and reconnects with a growing delay. The reconnect loop is in Loop.
pub mod Loop
pub mod Delays
pub mod Coverage
pub mod GapFree
pub mod Progress
pub mod Connected
pub mod Session
pub mod Stopping
use advanced_imessage_go.Prelude.{
  ℕ, zero, suc, ◌*◌, ◌<◌, List, [], ◌∷◌, ◌++◌, Bool, true, false, not, ◌&&◌, Option, none, some,
  ltb, if◌then◌else◌,
}
use advanced_imessage_go.Prelude.Text.{GoString, bytes, str_eq, is_empty}
use advanced_imessage_go.Prelude.Int.{ℤ, pos, ltb_ℤ, int64}
use advanced_imessage_go.ChatGuid.{ChatGuid}
use advanced_imessage_go.Errors.Chain.{GoError, nil, canceled, opaque}
use advanced_imessage_go.Model.Events.{
  MessageEvent, message_received, message_edited, message_read, message_unsent,
  message_reaction_added, message_reaction_removed, message_sticker_placed, CatchUpEvent,
  message_event, catchup_complete,
}
use advanced_imessage_go.Transport.Runtime.{Action}
use advanced_imessage_go.Transport.Interceptors.{shift_left}
use advanced_imessage_go.Streams.{Stream}

-- Nanoseconds: 500 ms and 30 s.
abbrev pub default_resume_min_backoff : ℤ
default_resume_min_backoff = pos 500000000

abbrev pub default_resume_max_backoff : ℤ
default_resume_max_backoff = pos 30000000000

pub record ResumableOptions : Type 0 where
  pub chat : ChatGuid
  pub min_backoff : ℤ
  pub max_backoff : ℤ

abbrev pub err_catch_up_incomplete : GoError
err_catch_up_incomplete = opaque (bytes "imessage: catch-up ended before completion")

-- The fields of `resumableMessages` that the loop reads.
pub record Settings : Type 0 where
  pub chat : ChatGuid
  pub min_backoff : ℤ
  pub max_backoff : ℤ

-- The start of `ResumableMessages`: a value that is not positive leaves the default.
unfoldable pub settings_of : Option ResumableOptions → Settings
settings_of none = record {
  chat = [];
  min_backoff = default_resume_min_backoff;
  max_backoff = default_resume_max_backoff;
}
settings_of (some opts) = record {
  chat = opts.chat;
  min_backoff =
      if ltb_ℤ (pos 0) opts.min_backoff then opts.min_backoff else default_resume_min_backoff;
  max_backoff =
      if ltb_ℤ (pos 0) opts.max_backoff then opts.max_backoff else default_resume_max_backoff;
}

unfoldable pub message_event_meta : MessageEvent → GoString × ℕ
message_event_meta (message_received e) = (e.event_context.chat_guid, e.sequence)
message_event_meta (message_edited e) = (e.event_context.chat_guid, e.sequence)
message_event_meta (message_read e) = (e.event_context.chat_guid, e.sequence)
message_event_meta (message_unsent e) = (e.event_context.chat_guid, e.sequence)
message_event_meta (message_reaction_added e) = (e.event_context.chat_guid, e.sequence)
message_event_meta (message_reaction_removed e) = (e.event_context.chat_guid, e.sequence)
message_event_meta (message_sticker_placed e) = (e.event_context.chat_guid, e.sequence)

-- `store.Load`: an error, nothing stored yet, or a cursor.
pub data Loaded : Type 0 where
  load_failed : GoError → Loaded
  nothing : Loaded
  stored : ℕ → Loaded

-- The surroundings of the engine: the context, the store, the two streams of the client, the
-- consumer and the timer. `has_store` says that `r.store` is not nil; `accepts ev` is true if the
-- consumer takes the event and false if the context is done first; `sleeps d` is true if the
-- timer fires first.
pub record Environment (T : Type 0) : Type 0 where
  pub has_store : Bool
  pub load : Action T Loaded
  pub save : ℕ → Action T GoError
  pub done : Action T Bool
  pub catch_up_stream : ℕ → Action T (Stream CatchUpEvent)
  pub live_stream : ChatGuid → Action T (Stream MessageEvent)
  pub accepts : MessageEvent → Action T Bool
  pub accepts_error : GoError → Action T Bool
  pub sleeps : ℤ → Action T Bool

-- The cursor, what the engine has done so far (events sent on `r.out`, the error sent there,
-- cursors saved, delays begun), and the state of the surroundings.
pub record Engine (T : Type 0) : Type 0 where
  pub cursor : ℕ
  pub sent : List MessageEvent
  pub sent_errors : List GoError
  pub saved : List ℕ
  pub slept : List ℤ
  pub world : T

-- Whether a loop goes on or its function returns.
pub data Flow : Type 0 where
  go_on : Flow
  return : GoError → Flow

-- The next delay of `sleepBackoff`: doubled, and capped.
unfoldable pub next_backoff : ℤ → ℤ → ℤ
next_backoff backoff max_backoff =
    let d = int64 (shift_left backoff 1) in if ltb_ℤ max_backoff d then max_backoff else d

module _ {T : Type 0} (env : Environment T) (settings : Settings) where
  -- `saveCursor`: the error of `Save` is dropped.
  unfoldable pub save_cursor : ℕ → Engine T → Engine T
  save_cursor n s =
      if env.has_store
      then record s { saved = s.saved ++ n ∷ []; world = (env.save n s.world).1 }
      else s

  -- `*cursor = n; r.saveCursor(ctx, n)`
  unfoldable pub advance : ℕ → Engine T → Engine T
  unfolding save_cursor
  advance n s = save_cursor n (record s { cursor = n })

  -- `trySend` with an event.
  unfoldable pub try_send : MessageEvent → Engine T → Bool × Engine T
  try_send ev s =
      let (taken, t) = env.accepts ev s.world in
      (taken, record s { sent = if taken then s.sent ++ ev ∷ [] else s.sent; world = t })

  -- Sends the event and then moves the cursor; where the context is done first, the error of the
  -- context is returned. It is not nil, and nothing else is asked of it: it stands here as
  -- `context.Canceled`.
  unfoldable pub deliver : MessageEvent → Engine T → Flow × Engine T
  unfolding try_send advance
  deliver ev s =
      let (taken, s') = try_send ev s in
      let n = (message_event_meta ev).1 in
      if taken then (go_on, if ltb 0 n then advance n s' else s') else (return canceled, s')

  -- `r.chat != "" && cg != string(r.chat)`
  unfoldable pub is_skipped : MessageEvent → Bool
  is_skipped ev =
      not (is_empty settings.chat) && not (str_eq (message_event_meta ev).0 settings.chat)

  -- The body of the loop of `catchUp`.
  unfoldable pub catch_up_step : CatchUpEvent → Engine T → Flow × Engine T
  unfolding deliver advance is_skipped
  catch_up_step (catchup_complete e) s =
      (return nil, if ltb s.cursor e.head_sequence then advance e.head_sequence s else s)
  catch_up_step (message_event ev) s = if is_skipped ev then (go_on, s) else deliver ev s
  catch_up_step _ s = (go_on, s)

  -- The end of a catch-up stream that did not report completion.
  abbrev pub incomplete : GoError → GoError
  incomplete nil = err_catch_up_incomplete
  incomplete err = err

  unfoldable pub catch_up_loop : List CatchUpEvent → GoError → Engine T → GoError × Engine T
  unfolding catch_up_step
  catch_up_loop [] err s = (incomplete err, s)
  catch_up_loop (ev ∷ events) err s =
      let (flow, s') = catch_up_step ev s in
      elim flow [ return e ↦ (e, s') | go_on ↦ catch_up_loop events err s' ]

  unfoldable pub catch_up : Engine T → GoError × Engine T
  unfolding catch_up_loop
  catch_up s =
      let (stream, t) = env.catch_up_stream s.cursor s.world in
      catch_up_loop stream.events stream.err (record s { world = t })

  unfoldable pub live_loop : List MessageEvent → GoError → Engine T → GoError × Engine T
  unfolding deliver
  live_loop [] err s = (err, s)
  live_loop (ev ∷ events) err s =
      let (flow, s') = deliver ev s in
      elim flow [ return e ↦ (e, s') | go_on ↦ live_loop events err s' ]

  unfoldable pub live : Engine T → GoError × Engine T
  unfolding live_loop
  live s =
      let (stream, t) = env.live_stream settings.chat s.world in
      live_loop stream.events stream.err (record s { world = t })
