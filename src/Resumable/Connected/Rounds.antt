-- ===== src/Resumable/Connected/Rounds.antt =====
-- What one round of resumable.go delivers, from the frames that the server sends.
use mathlib.Core.List.{append_assoc, append-nil}
use advanced_imessage_go.Prelude.{
  ℕ, List, [], ◌∷◌, ◌++◌, All, true, false, some, ◌≡◌, refl, sym, ap, ◌∙◌, arith,
}
use advanced_imessage_go.Prelude.Int.{ℤ}
use advanced_imessage_go.Errors.Chain.{GoError, nil, ConnectText}
use advanced_imessage_go.Transport.Runtime.{ok, Context}
use advanced_imessage_go.Transport.Subscription.Delivery.{run_frames, run_source}
use advanced_imessage_go.Model.Events.{
  MessageEvent, CatchUpEvent, CatchupComplete, catchup_complete,
}
use advanced_imessage_go.Wire.Common.{Timestamps}
use advanced_imessage_go.Wire.Changes.{
  PbFrame, PbMessageChangeEvent, PbCatchUpFrame, PbCatchUpPayload,
}
use advanced_imessage_go.Convert.Events.{
  message_event_from_proto, catch_up_event_from_proto, catch_up_event_of,
}
use advanced_imessage_go.Messages.{MessageService}
use advanced_imessage_go.Services.Events.{EventService, after_sequence_of, catch_up}
use advanced_imessage_go.Streams.{chat_filter, drained, emitted}
use advanced_imessage_go.Messages.Reading.{subscribe}
use advanced_imessage_go.Streams.Drained.{run_kept, run_kept_all}
use advanced_imessage_go.Resumable
use advanced_imessage_go.Resumable.{
  Settings, Environment, Engine, go_on, return, save_cursor, advance, try_send, deliver,
  catch_up_loop, live_loop, live,
}
use advanced_imessage_go.Resumable.Loop.{pause, after_live, check_done, round}
use advanced_imessage_go.Resumable.Progress.{IsOpen, selected, AcceptsAll, catch_up_complete}
use advanced_imessage_go.Resumable.Connected.{Host, connected}
use advanced_imessage_go.Resumable.Connected.Frames.{IsEvent, replayed, followed, replayed-IsOpen}

module _ {T : Type 0} (env : Environment T) (settings : Settings) where
  deliver_all :
      AcceptsAll env settings
      → (ev : MessageEvent) (s : Engine T)
      → ((deliver env settings ev s).0 ≡ go_on)
        × ((deliver env settings ev s).1.sent ≡ s.sent ++ ev ∷ [])
  unfolding deliver try_send advance save_cursor
  deliver_all accepting ev s =
      (ground (arith, accepting ev s.world), ground (arith, accepting ev s.world))

  live_on :
      (ev : MessageEvent) (events : List MessageEvent) (err : GoError) (s : Engine T)
      → (deliver env settings ev s).0 ≡ go_on
      → live_loop env settings (ev ∷ events) err s
        ≡ live_loop env settings events err (deliver env settings ev s).1
  unfolding live_loop
  live_on ev events err s h =
      ap
        (λ flow. elim flow [
          | return e ↦ (e, (deliver env settings ev s).1)
          | go_on ↦ live_loop env settings events err (deliver env settings ev s).1
        ])
        h

  live_loop_all :
      AcceptsAll env settings
      → (events : List MessageEvent) (err : GoError) (s : Engine T)
      → (live_loop env settings events err s).1.sent ≡ s.sent ++ events
  live_loop_all accepting [] err s = unfold live_loop in sym (append-nil s.sent)
  live_loop_all accepting (ev ∷ events) err s =
      let (goes, sent) = deliver_all accepting ev s in
      let after = (deliver env settings ev s).1 in
      ap (λ r. r.1.sent) (live_on ev events err s goes)
      ∙ (live_loop_all accepting events err after
          ∙ (ap (λ l. l ++ events) sent ∙ append_assoc s.sent (ev ∷ []) events))

  pause-sent : (d : ℤ) (s : Engine T) → (pause env settings d s).1.sent ≡ s.sent
  pause-sent d s = ground arith

  after_live-sent : (r : GoError × Engine T) → (after_live env settings r).1.sent ≡ r.1.sent
  after_live-sent (nil, s) = pause-sent settings.min_backoff s
  after_live-sent (_, s) =
      ground (arith, pause-sent settings.min_backoff (check_done env settings s).1)

  -- A round whose context is not done yet, whose catch-up has ended without an error in `s'`.
  round_after :
      (d : ℤ) (s s' : Engine T)
      → (env.done s.world).0 ≡ false
      → Resumable.catch_up env settings (check_done env settings s).1 ≡ (nil, s')
      → (round env settings d s).1.sent ≡ (live env settings s').1.sent
  unfolding round
  round_after d s s' running caught = rw (running, caught) (after_live-sent (live env settings s'))

  -- A catch-up whose stream reports its completion.
  caught_up :
      (s : Engine T) (pre post : List CatchUpEvent) (e : CatchupComplete)
      → AcceptsAll env settings
      → IsOpen pre
      → (env.catch_up_stream s.cursor s.world).0.events ≡ pre ++ catchup_complete e ∷ post
      → (s' : Engine T) × (Resumable.catch_up env settings s ≡ (nil, s'))
        × (s'.sent ≡ s.sent ++ selected env settings pre)
  unfolding Resumable.catch_up
  caught_up s pre post e accepting still_open events =
      let (stream, t) = env.catch_up_stream s.cursor s.world in
      let begun : Engine T = record s { world = t } in
      let (clean, sent, reached) =
        catch_up_complete env settings pre post e stream.err begun accepting still_open in
      let r = catch_up_loop env settings (pre ++ catchup_complete e ∷ post) stream.err begun in
      let whole : r ≡ (nil, r.1) = ap (λ err. (err, r.1)) clean in
      (r.1, ap (λ l. catch_up_loop env settings l stream.err begun) events ∙ whole, sent)

  live_all :
      AcceptsAll env settings
      → (s : Engine T) (events : List MessageEvent)
      → (env.live_stream settings.chat s.world).0.events ≡ events
      → (live env settings s).1.sent ≡ s.sent ++ events
  unfolding live
  live_all accepting s events e =
      let (stream, t) = env.live_stream settings.chat s.world in
      live_loop_all accepting stream.events stream.err (record s { world = t })
      ∙ ap (λ l. s.sent ++ l) e

  round_lem :
      (d : ℤ) (s : Engine T) (pre post : List CatchUpEvent) (e : CatchupComplete)
      (events : List MessageEvent)
      → AcceptsAll env settings
      → (env.done s.world).0 ≡ false
      → IsOpen pre
      → (env.catch_up_stream s.cursor (env.done s.world).1).0.events
        ≡ pre ++ catchup_complete e ∷ post
      → ((t : T) → (env.live_stream settings.chat t).0.events ≡ events)
      → (round env settings d s).1.sent ≡ s.sent ++ (selected env settings pre ++ events)
  round_lem d s pre post e events accepting running still_open replay following =
      let (s', caught, sent) =
        caught_up (check_done env settings s).1 pre post e accepting still_open replay in
      round_after d s s' running caught
      ∙ (live_all accepting s' events (following s'.world)
          ∙ (ap (λ l. l ++ events) sent ∙ append_assoc s.sent (selected env settings pre) events))

module _ ⦃ct : ConnectText⦄ ⦃ts : Timestamps⦄ {S : Type 0} (messages : MessageService S)
    (events : EventService S) (ctx : Context) (host : Host S) (settings : Settings) where
  abbrev engine : Environment S
  engine = connected messages events ctx host

  complete_frames :
      (pre post : List PbCatchUpFrame) (last : PbCatchUpFrame) (head : ℕ) (err : GoError)
      → last.payload ≡ PbCatchUpPayload.complete head
      → (run_frames (λ f. emitted (catch_up_event_from_proto f)) (pre ++ last ∷ post) err).0
        ≡ replayed pre
          ++ catchup_complete (record { head_sequence = head })
            ∷ (run_frames (λ f. emitted (catch_up_event_from_proto f)) post err).0
  unfolding run_frames catch_up_event_from_proto catch_up_event_of
  complete_frames pre post last head err e =
      run_kept catch_up_event_from_proto pre (last ∷ post) err ∙ rw e refl

  replay_events :
      (pre post : List PbCatchUpFrame) (last : PbCatchUpFrame) (head : ℕ) (err : GoError) (n : ℕ)
      (s : S)
      → (events.catch_up_events ctx (after_sequence_of n) s).0 ≡ ok (pre ++ last ∷ post, err)
      → last.payload ≡ PbCatchUpPayload.complete head
      → (engine.catch_up_stream n s).0.events
        ≡ replayed pre
          ++ catchup_complete (record { head_sequence = head })
            ∷ (run_frames (λ f. emitted (catch_up_event_from_proto f)) post err).0
  unfolding connected drained catch_up run_source
  replay_events pre post last head err n s reply ended =
      rw reply (complete_frames pre post last head err ended)

  live_events :
      (live : List (PbFrame PbMessageChangeEvent)) (err : GoError) (s : S)
      → (messages.subscribe_message_events ctx
          (chat_filter (some (record { chat = settings.chat })))
          s).0
        ≡ ok (live, err)
      → (engine.live_stream settings.chat s).0.events ≡ followed live
  unfolding connected drained subscribe run_source
  live_events live err s e = rw e (run_kept_all message_event_from_proto live err)

  -- One healthy round, from the frames on the wire. The context is not done at its start and the
  -- consumer takes every event; the server answers the catch-up request after the cursor with the
  -- frames `pre` and then a completion, and every subscription to the chat of the settings with
  -- the frames `live`. Then the round sends exactly the message events of `pre` that pass the chat
  -- filter and after them those of `live`, each converted, in the order of the frames.
  pub round_delivers :
      (d : ℤ) (s : Engine S) (pre post : List PbCatchUpFrame) (last : PbCatchUpFrame) (head : ℕ)
      (live : List (PbFrame PbMessageChangeEvent)) (err live_err : GoError)
      → ((ev : MessageEvent) (t : S) → (host.accepts ev t).0 ≡ true)
      → (host.done s.world).0 ≡ false
      → (events.catch_up_events ctx (after_sequence_of s.cursor) (host.done s.world).1).0
        ≡ ok (pre ++ last ∷ post, err)
      → All IsEvent pre
      → last.payload ≡ PbCatchUpPayload.complete head
      → ((t : S)
          → (messages.subscribe_message_events ctx
              (chat_filter (some (record { chat = settings.chat })))
              t).0
            ≡ ok (live, live_err))
      → (round engine settings d s).1.sent
        ≡ s.sent ++ (selected engine settings (replayed pre) ++ followed live)
  unfolding connected
  round_delivers d s pre post last head live err live_err accepting running reply begin ended
        following =
      round_lem engine settings d s (replayed pre)
        (run_frames (λ f. emitted (catch_up_event_from_proto f)) post err).0
        (record { head_sequence = head }) (followed live) accepting running
        (replayed-IsOpen pre begin)
        (replay_events pre post last head err s.cursor (host.done s.world).1 reply ended)
        (λ t. live_events live live_err t (following t))
