-- ===== src/Resumable/Progress.antt =====
-- What one catch-up of resumable.go delivers to a consumer that takes every event.
use mathlib.Core.List.{append_assoc, append-nil}
use advanced_imessage_go.Prelude.{
  ◌≤◌, ◌≡◌, ◌≢◌, refl, sym, ap, ◌∙◌, arith, List, [], ◌∷◌, ◌++◌, true, if◌then◌else◌,
}
use advanced_imessage_go.Errors.Chain.{GoError, nil}
use advanced_imessage_go.Model.Events.{
  MessageEvent, CatchUpEvent, CatchupComplete, message_event, chat_event, group_event, poll_event,
  catchup_complete,
}
use advanced_imessage_go.Resumable.{
  Settings, Environment, Engine, go_on, return, save_cursor, advance, try_send, deliver, is_skipped,
  catch_up_step, catch_up_loop,
}

-- No completion is among the events.
abbrev pub IsOpen : List CatchUpEvent → Type 0
IsOpen [] = Unit
IsOpen (catchup_complete e ∷ events) = ⊥
IsOpen (_ ∷ events) = IsOpen events

module _ {T : Type 0} (env : Environment T) (settings : Settings) where
  -- The message events that pass the chat filter.
  unfoldable pub selected : List CatchUpEvent → List MessageEvent
  selected [] = []
  selected (message_event ev ∷ events) =
      let rest = selected events in if is_skipped env settings ev then rest else ev ∷ rest
  selected (_ ∷ events) = selected events

  -- The consumer takes every event.
  abbrev pub AcceptsAll : Type 0
  AcceptsAll = (ev : MessageEvent) (t : T) → (env.accepts ev t).0 ≡ true

  step_selected :
      AcceptsAll
      → (ev : MessageEvent) (s : Engine T)
      → ((catch_up_step env settings (message_event ev) s).0 ≡ go_on)
        × ((catch_up_step env settings (message_event ev) s).1.sent
            ≡ s.sent ++ selected (message_event ev ∷ []))
  unfolding catch_up_step deliver try_send advance save_cursor selected
  step_selected accepting ev s = (
    ground (arith, accepting ev s.world),
    ground (arith, accepting ev s.world, append-nil s.sent),
  )

  selected-cons :
      (ev : MessageEvent) (events : List CatchUpEvent)
      → selected (message_event ev ∷ events) ≡ selected (message_event ev ∷ []) ++ selected events
  unfolding selected
  selected-cons ev events = ground arith

  loop_on :
      (ev : CatchUpEvent) (events : List CatchUpEvent) (err : GoError) (s : Engine T)
      → (catch_up_step env settings ev s).0 ≡ go_on
      → catch_up_loop env settings (ev ∷ events) err s
        ≡ catch_up_loop env settings events err (catch_up_step env settings ev s).1
  unfolding catch_up_loop
  loop_on ev events err s h =
      ap
        (λ flow. elim flow [
          | return e ↦ (e, (catch_up_step env settings ev s).1)
          | go_on ↦ catch_up_loop env settings events err (catch_up_step env settings ev s).1
        ])
        h

  -- The loop gets past events without a completion, and has sent the selected ones.
  loop_past :
      AcceptsAll
      → (pre rest : List CatchUpEvent) (err : GoError) (s : Engine T) → IsOpen pre
      → (s' : Engine T) × (catch_up_loop env settings (pre ++ rest) err s
          ≡ catch_up_loop env settings rest err s')
        × (s'.sent ≡ s.sent ++ selected pre)
  unfolding catch_up_loop selected
  loop_past accepting [] rest err s still_open = (s, refl, sym (append-nil s.sent))
  loop_past accepting (catchup_complete e ∷ pre) rest err s still_open = absurd still_open
  loop_past accepting (message_event ev ∷ pre) rest err s still_open =
      let (goes, sends) = step_selected accepting ev s in
      let after = (catch_up_step env settings (message_event ev) s).1 in
      let (s', equal, sent) = loop_past accepting pre rest err after still_open in
      (
        s',
        loop_on (message_event ev) (pre ++ rest) err s goes ∙ equal,
        sent
            ∙ (ap (λ l. l ++ selected pre) sends
                ∙ (append_assoc s.sent (selected (message_event ev ∷ [])) (selected pre)
                    ∙ ap (λ l. s.sent ++ l) (sym (selected-cons ev pre)))),
      )
  loop_past accepting (chat_event _ ∷ pre) rest err s still_open =
      unfold catch_up_step in loop_past accepting pre rest err s still_open
  loop_past accepting (group_event _ ∷ pre) rest err s still_open =
      unfold catch_up_step in loop_past accepting pre rest err s still_open
  loop_past accepting (poll_event _ ∷ pre) rest err s still_open =
      unfold catch_up_step in loop_past accepting pre rest err s still_open

  complete_last :
      (e : CatchupComplete) (post : List CatchUpEvent) (err : GoError) (s : Engine T)
      → let r = catch_up_loop env settings (catchup_complete e ∷ post) err s in
        (r.0 ≡ nil) × (r.1.sent ≡ s.sent) × (e.head_sequence ≤ r.1.cursor)
  unfolding catch_up_loop catch_up_step advance save_cursor
  complete_last e post err s = (refl, ground arith, ground arith)

  -- With a consumer that takes every event, a stream that reports its completion ends the catch-up
  -- without an error: the consumer got exactly the message events before the completion that pass
  -- the chat filter, in order, and the cursor has reached the head.
  pub catch_up_complete :
      (pre post : List CatchUpEvent) (e : CatchupComplete) (err : GoError) (s : Engine T)
      → AcceptsAll
      → IsOpen pre
      → let r = catch_up_loop env settings (pre ++ catchup_complete e ∷ post) err s in
        (r.0 ≡ nil) × (r.1.sent ≡ s.sent ++ selected pre) × (e.head_sequence ≤ r.1.cursor)
  catch_up_complete pre post e err s accepting still_open =
      let (s', equal, sent) =
        loop_past accepting pre (catchup_complete e ∷ post) err s still_open in
      let (none_failed, same, reached) = complete_last e post err s' in
      rw equal (none_failed, same ∙ sent, reached)

  incomplete_last :
      (err : GoError) (s : Engine T)
      → ((catch_up_loop env settings [] err s).0 ≢ nil)
        × ((catch_up_loop env settings [] err s).1 ≡ s)
  unfolding catch_up_loop
  incomplete_last nil s = (λ h. cc, refl)
  incomplete_last _ s = (λ h. cc, refl)

  -- A stream that breaks off before its completion is an error even if the stream reports none, so
  -- that no live subscription follows; the consumer still got what passed the chat filter.
  pub catch_up_broken :
      (events : List CatchUpEvent) (err : GoError) (s : Engine T)
      → AcceptsAll
      → IsOpen events
      → let r = catch_up_loop env settings events err s in
        (r.0 ≢ nil) × (r.1.sent ≡ s.sent ++ selected events)
  catch_up_broken events err s accepting still_open =
      let (s', equal, sent) = loop_past accepting events [] err s still_open in
      let (failed, same) = incomplete_last err s' in
      let whole : catch_up_loop env settings events err s ≡ catch_up_loop env settings [] err s' =
        ap (λ l. catch_up_loop env settings l err s) (sym (append-nil events)) ∙ equal in
      rw whole (failed, ap (λ x. x.sent) same ∙ sent)
