-- ===== src/Resumable/GapFree.antt =====
-- Catch-up in resumable.go against a server whose streams leave nothing out.
pub mod Rounds
use advanced_imessage_go.Prelude.{
  ℕ, zero, suc, ◌≤◌, ◌<◌, ◌≡◌, ◌≢◌, ◌⊎◌, inl, inr, refl, sym, ap, ◌∙◌, arith, List, [], ◌∷◌, ◌++◌,
  Bool, true, false, All, ltb, if◌then◌else◌, Bool-cases, Option, none, some,
}
use advanced_imessage_go.Prelude.Int.{ℤ}
use advanced_imessage_go.Errors.Chain.{GoError, nil, canceled}
use advanced_imessage_go.Model.Events.{
  MessageEvent, CatchUpEvent, CatchupComplete, message_event, chat_event, group_event, poll_event,
  catchup_complete,
}
use advanced_imessage_go.Resumable.{
  Settings, Environment, Engine, Flow, go_on, return, save_cursor, advance, try_send, deliver,
  is_skipped, catch_up_step, incomplete, catch_up_loop, catch_up, live_loop, live, Loaded,
  load_failed, nothing, stored, next_backoff,
}
use advanced_imessage_go.Resumable.Loop.{
  pause, after_live, after_catch_up, check_done, sleep, round, run_loop, start, run_loaded, run,
}
use advanced_imessage_go.Resumable.Coverage.{
  sequence_of, In, Wanted, IsNext, Replays, Follows, Covers, IsCovered, Kept, All-le, grown,
  deliver-Kept,
}

-- The completion of a catch-up stream, if it has one, is not before the position `q`.
abbrev pub Meets : ℕ → List CatchUpEvent → Type 0
Meets q [] = Unit
Meets q (catchup_complete e ∷ events) = q ≤ e.head_sequence
Meets q (_ ∷ events) = Meets q events

-- A server whose log is `Logged`. Replay leaves out no event; a live stream starts at the
-- position `live_from` and leaves out no event after it; and it starts where the catch-up before
-- it was completed, or earlier. What the consumer and the store do does not move that position.
pub record IsServer {T : Type 0} (env : Environment T) (settings : Settings)
    (Logged : MessageEvent → Type 0) (live_from : T → ℕ) : Type 0 where
  pub replays : (c : ℕ) (t : T) → Replays env settings Logged c (env.catch_up_stream c t).0.events
  pub follows :
      (t : T) → Follows env settings Logged (live_from t) (env.live_stream settings.chat t).0.events
  pub meets :
      (c : ℕ) (t : T)
      → Meets (live_from (env.catch_up_stream c t).1) (env.catch_up_stream c t).0.events
  pub accepts_fixed : (ev : MessageEvent) (t : T) → live_from (env.accepts ev t).1 ≡ live_from t
  pub save_fixed : (n : ℕ) (t : T) → live_from (env.save n t).1 ≡ live_from t

module _ {T : Type 0} (env : Environment T) (settings : Settings) (Logged : MessageEvent → Type 0)
    (live_from : T → ℕ) (server : IsServer env settings Logged live_from) (first : ℕ) where
  open server use {replays, follows, meets, accepts_fixed, save_fixed}

  -- `IsCovered` up to a point that is not before `m`.
  abbrev pub From : ℕ → Engine T → Type 0
  From m s = (m' : ℕ) × (m ≤ m') × IsCovered env settings Logged first s m'

  deliver-live_from :
      (ev : MessageEvent) (s : Engine T)
      → live_from (deliver env settings ev s).1.world ≡ live_from s.world
  unfolding deliver try_send advance save_cursor
  deliver-live_from ev s =
      ground
        (arith, accepts_fixed ev s.world, save_fixed (sequence_of ev) (env.accepts ev s.world).1)

  -- What the loop of `catchUp` ends with.
  abbrev pub IsCaughtUp : ℕ → GoError × Engine T → Type 0
  IsCaughtUp m (err, s) = From m s × (err ≡ nil → live_from s.world ≤ s.cursor)

  Covers-none_left :
      (sent : List MessageEvent) (m p h : ℕ)
      → p ≤ m
      → ((ev : MessageEvent)
          → Wanted env settings Logged ev
          → p < sequence_of ev
          → h < sequence_of ev)
      → Covers env settings Logged first sent m
      → Covers env settings Logged first sent h
  Covers-none_left sent m p h le none_left covers e w after upto =
      elim (Bool-cases (ltb m (sequence_of e))) [
        | inl b ↦ absurd (omega (arith, none_left e w (ground arith)))
        | inr b ↦ covers e w after (ground arith)
      ]

  complete_step :
      (e : CatchupComplete) (s : Engine T) (m p : ℕ)
      → p ≤ m
      → ((ev : MessageEvent)
          → Wanted env settings Logged ev
          → p < sequence_of ev
          → e.head_sequence < sequence_of ev)
      → live_from s.world ≤ e.head_sequence
      → IsCovered env settings Logged first s m
      → IsCaughtUp m (
        nil,
        (if ltb s.cursor e.head_sequence then advance env settings e.head_sequence s else s),
      )
  unfolding advance save_cursor
  complete_step e s m p le none_left met (covers, low, saved) =
      let r = if ltb s.cursor e.head_sequence then advance env settings e.head_sequence s else s in
      let h = e.head_sequence in
      let same_sent : r.sent ≡ s.sent = ground arith in
      let at_head : (r.cursor ≡ s.cursor) × (h ≤ s.cursor) ⊎ (r.cursor ≡ h) = ground arith in
      let one_more : (r.saved ≡ s.saved) ⊎ (r.saved ≡ s.saved ++ h ∷ []) = ground arith in
      let still : live_from r.world ≡ live_from s.world = ground (arith, save_fixed h s.world) in
      let reached : live_from r.world ≤ r.cursor = ground (arith, still, at_head) in
      elim (Bool-cases (ltb m h)) [
        | inl b ↦ (
          (
            h,
            ground arith,
            (
              rw same_sent (Covers-none_left s.sent m p h le none_left covers),
              ground (arith, at_head),
              grown r.saved s.saved h h one_more (omega arith)
                  (All-le m h s.saved (ground arith) saved),
            ),
          ),
          λ _. reached,
        )
        | inr b ↦ (
          (
            m,
            omega arith,
            (
              rw same_sent covers,
              ground (arith, at_head),
              grown r.saved s.saved h m one_more (ground arith) saved,
            ),
          ),
          λ _. reached,
        )
      ]

  -- An event of another chat: the position moves on, and the engine stays as it is.
  Covers-skipped :
      (sent : List MessageEvent) (m p : ℕ) (ev : MessageEvent)
      → p ≤ m
      → IsNext env settings Logged p ev
      → is_skipped env settings ev ≡ true
      → Covers env settings Logged first sent m
      → Covers env settings Logged first sent (sequence_of ev)
  Covers-skipped sent m p ev le next skip covers e w after upto =
      elim (Bool-cases (ltb m (sequence_of e))) [
        | inl b ↦
            let same = next.1 e w (ground arith) upto in
            let kept : is_skipped env settings ev ≡ false =
              ap (is_skipped env settings) (sym same) ∙ w.1 in
            absurd cc
        | inr b ↦ covers e w after (ground arith)
      ]

  skip_step :
      (s : Engine T) (m p : ℕ) (ev : MessageEvent)
      → p ≤ m
      → IsNext env settings Logged p ev
      → is_skipped env settings ev ≡ true
      → IsCovered env settings Logged first s m
      → Kept env settings Logged first m (sequence_of ev) (go_on, s)
  skip_step s m p ev le next skip (covers, low, saved) =
      elim (Bool-cases (ltb m (sequence_of ev))) [
        | inl b ↦ (
          sequence_of ev,
          ground arith,
          omega arith,
          (
            Covers-skipped s.sent m p ev le next skip covers,
            ground arith,
            All-le m (sequence_of ev) s.saved (ground arith) saved,
          ),
        )
        | inr b ↦ (m, omega arith, ground arith, (covers, low, saved))
      ]

  -- What follows a step of the loop of `catchUp`.
  loop_from :
      (events : List CatchUpEvent) (err : GoError) (m n q : ℕ) (r : Flow × Engine T)
      → Kept env settings Logged first m n r
      → live_from r.1.world ≡ q
      → ((s : Engine T) (m' : ℕ)
          → n ≤ m'
          → IsCovered env settings Logged first s m'
          → live_from s.world ≡ q
          → IsCaughtUp m' (catch_up_loop env settings events err s))
      → IsCaughtUp m
          (elim r.0 [ return e ↦ (e, r.1) | go_on ↦ catch_up_loop env settings events err r.1 ])
  loop_from events err m n q (go_on, s) (m', le, up, covered) at rec =
      let ((m'', more, done), ready) = rec s m' up covered at in ((m'', omega arith, done), ready)
  loop_from events err m n q (return e, s) (stopped, covered) at rec =
      ((m, omega arith, covered), λ k. cc)

  -- The loop of `catchUp` over a stream that leaves nothing out.
  pub catch_up_loop-IsCaughtUp :
      (events : List CatchUpEvent) (err : GoError) (s : Engine T) (m p q : ℕ)
      → p ≤ m
      → Replays env settings Logged p events
      → Meets q events
      → live_from s.world ≡ q
      → IsCovered env settings Logged first s m
      → IsCaughtUp m (catch_up_loop env settings events err s)
  unfolding catch_up_loop catch_up_step
  catch_up_loop-IsCaughtUp [] nil s m p q le replay met at covered =
      ((m, omega arith, covered), λ k. cc)
  catch_up_loop-IsCaughtUp [] _ s m p q le replay met at covered =
      ((m, omega arith, covered), λ k. cc)
  catch_up_loop-IsCaughtUp (catchup_complete e ∷ events) err s m p q le replay met at covered =
      complete_step e s m p le replay (omega arith) covered
  catch_up_loop-IsCaughtUp (message_event ev ∷ events) err s m p q le replay met at covered =
      step (is_skipped env settings ev) refl (λ s' m' up c a.
        catch_up_loop-IsCaughtUp events err s' m' (sequence_of ev) q up replay.1 met a c)
    where
      step :
          (b : Bool)
          → is_skipped env settings ev ≡ b
          → ((s' : Engine T) (m' : ℕ)
              → sequence_of ev ≤ m'
              → IsCovered env settings Logged first s' m'
              → live_from s'.world ≡ q
              → IsCaughtUp m' (catch_up_loop env settings events err s'))
          → IsCaughtUp m (
              let r = if b then (go_on, s) else deliver env settings ev s in
              elim r.0 [ return e ↦ (e, r.1) | go_on ↦ catch_up_loop env settings events err r.1 ])
      step true skip rec =
          loop_from events err m (sequence_of ev) q (go_on, s)
            (skip_step s m p ev le replay.0 skip covered) at rec
      step false skip rec =
          loop_from events err m (sequence_of ev) q (deliver env settings ev s)
            (deliver-Kept env settings Logged first ev s m p le replay.0 covered)
            (deliver-live_from ev s ∙ at) rec
  catch_up_loop-IsCaughtUp (_ ∷ events) err s m p q le replay met at covered =
      catch_up_loop-IsCaughtUp events err s m p q le replay met at covered
