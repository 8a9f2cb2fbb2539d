-- ===== src/Resumable/GapFree/Rounds.antt =====
-- That the loop of resumable.go is gap-free: a cursor is never ahead of what the consumer got.
use advanced_imessage_go.Prelude.{
  ℕ, zero, suc, ◌≤◌, refl, arith, List, [], ◌∷◌, Bool, true, false, All, All-imp, if◌then◌else◌,
  Option, none, some,
}
use advanced_imessage_go.Prelude.Int.{ℤ}
use advanced_imessage_go.Errors.Chain.{GoError, nil}
use advanced_imessage_go.Model.Events.{MessageEvent}
use advanced_imessage_go.Resumable.{
  Settings, Environment, Engine, Flow, go_on, return, deliver, catch_up, live_loop, live, Loaded,
  load_failed, nothing, stored, next_backoff,
}
use advanced_imessage_go.Resumable.Loop.{
  pause, after_live, after_catch_up, check_done, sleep, round, run_loop, start, run_loaded, run,
}
use advanced_imessage_go.Resumable.Coverage.{
  sequence_of, Follows, Covers, IsCovered, Kept, deliver-Kept,
}
use advanced_imessage_go.Resumable.GapFree.{IsServer, From, IsCaughtUp, catch_up_loop-IsCaughtUp}

module _ {T : Type 0} (env : Environment T) (settings : Settings) (Logged : MessageEvent → Type 0)
    (live_from : T → ℕ) (server : IsServer env settings Logged live_from) (first : ℕ) where
  open server use {replays, follows, meets, accepts_fixed, save_fixed}

  abbrev LeavesFrom {ℓ} : {A : Type ℓ} → ℕ → A × Engine T → Type 0
  LeavesFrom m r = From env settings Logged live_from server first m r.1

  abbrev LeavesCovered {ℓ} : {A : Type ℓ} → ℕ → A × Engine T → Type 0
  LeavesCovered m r = IsCovered env settings Logged first r.1 m

  live_loop-From :
      (events : List MessageEvent) (err : GoError) (s : Engine T) (m p : ℕ)
      → p ≤ m
      → Follows env settings Logged p events
      → IsCovered env settings Logged first s m
      → From env settings Logged live_from server first m (live_loop env settings events err s).1
  unfolding live_loop
  live_loop-From [] err s m p le follow covered = (m, omega arith, covered)
  live_loop-From (ev ∷ events) err s m p le follow covered =
      step (deliver env settings ev s)
        (deliver-Kept env settings Logged first ev s m p le follow.0 covered)
        (λ s' m' up c. live_loop-From events err s' m' (sequence_of ev) up follow.1 c)
    where
      step :
          (r : Flow × Engine T)
          → Kept env settings Logged first m (sequence_of ev) r
          → ((s' : Engine T) (m' : ℕ)
              → sequence_of ev ≤ m'
              → IsCovered env settings Logged first s' m'
              → From env settings Logged live_from server first m'
                  (live_loop env settings events err s').1)
          → LeavesFrom {A = GoError} m
              (elim r.0 [ return e ↦ (e, r.1) | go_on ↦ live_loop env settings events err r.1 ])
      step (go_on, s') (m', le', up, c) rec =
          let (m'', more, done) = rec s' m' up c in (m'', omega arith, done)
      step (return e, s') (stopped, c) rec = (m, omega arith, c)

  catch_up-IsCaughtUp :
      (s : Engine T) (m : ℕ)
      → IsCovered env settings Logged first s m
      → IsCaughtUp env settings Logged live_from server first m (catch_up env settings s)
  unfolding catch_up
  catch_up-IsCaughtUp s m covered =
      let (stream, t) = env.catch_up_stream s.cursor s.world in
      catch_up_loop-IsCaughtUp env settings Logged live_from server first stream.events stream.err
        (record s { world = t }) m s.cursor (live_from t) covered.1 (replays s.cursor s.world)
        (meets s.cursor s.world) refl covered

  live-From :
      (s : Engine T) (m : ℕ)
      → live_from s.world ≤ s.cursor
      → IsCovered env settings Logged first s m
      → From env settings Logged live_from server first m (live env settings s).1
  unfolding live
  live-From s m ready covered =
      let (stream, t) = env.live_stream settings.chat s.world in
      live_loop-From stream.events stream.err (record s { world = t }) m (live_from s.world)
        (omega (arith, covered.1)) (follows s.world) covered

  pause-IsCovered :
      (d : ℤ) (s : Engine T) (m : ℕ)
      → IsCovered env settings Logged first s m
      → IsCovered env settings Logged first (pause env settings d s).1 m
  pause-IsCovered d s m covered = go (env.done s.world).0
    where
      go :
          (over : Bool)
          → LeavesCovered {A = Option ℤ} m (
              if over
              then (none, (check_done env settings s).1)
              else let (fired, s₂) = sleep env settings d (check_done env settings s).1 in
                (if fired then some (next_backoff d settings.max_backoff) else none, s₂))
      go true = covered
      go false = covered

  after_live-IsCovered :
      (r : GoError × Engine T) (m : ℕ)
      → IsCovered env settings Logged first r.1 m
      → IsCovered env settings Logged first (after_live env settings r).1 m
  after_live-IsCovered (nil, s) m covered = pause-IsCovered settings.min_backoff s m covered
  after_live-IsCovered (_, s) m covered = go (env.done s.world).0
    where
      go :
          (over : Bool)
          → LeavesCovered {A = Option ℤ} m (
              if over
              then (none, (check_done env settings s).1)
              else pause env settings settings.min_backoff (check_done env settings s).1)
      go true = covered
      go false = pause-IsCovered settings.min_backoff (check_done env settings s).1 m covered

  after_catch_up-From :
      (d : ℤ) (r : GoError × Engine T) (m : ℕ)
      → IsCaughtUp env settings Logged live_from server first m r
      → From env settings Logged live_from server first m (after_catch_up env settings d r).1
  after_catch_up-From d (nil, s) m ((m', le, covered), ready) =
      let (m'', more, done) = live-From s m' (ready refl) covered in
      (m'', omega arith, after_live-IsCovered (live env settings s) m'' done)
  after_catch_up-From d (_, s) m ((m', le, covered), ready) =
      (m', le, pause-IsCovered d s m' covered)

  round-From :
      (d : ℤ) (s : Engine T) (m : ℕ)
      → IsCovered env settings Logged first s m
      → From env settings Logged live_from server first m (round env settings d s).1
  unfolding round
  round-From d s m covered = go (env.done s.world).0
    where
      go :
          (over : Bool)
          → LeavesFrom {A = Option ℤ} m (
              if over
              then (none, (check_done env settings s).1)
              else after_catch_up env settings d
                  (catch_up env settings (check_done env settings s).1))
      go true = (m, omega arith, covered)
      go false =
          after_catch_up-From d (catch_up env settings (check_done env settings s).1) m
            (catch_up-IsCaughtUp (check_done env settings s).1 m covered)

  run_loop-From :
      (rounds : ℕ) (d : ℤ) (s : Engine T) (m : ℕ)
      → IsCovered env settings Logged first s m
      → From env settings Logged live_from server first m (run_loop env settings rounds d s)
  unfolding run_loop
  run_loop-From zero d s m covered = (m, omega arith, covered)
  run_loop-From (suc rounds) d s m covered =
      step (round env settings d s).0 (round-From d s m covered)
        (λ e m' c. run_loop-From rounds e (round env settings d s).1 m' c)
    where
      step :
          (next : Option ℤ)
          → From env settings Logged live_from server first m (round env settings d s).1
          → ((e : ℤ) (m' : ℕ)
              → IsCovered env settings Logged first (round env settings d s).1 m'
              → From env settings Logged live_from server first m'
                  (run_loop env settings rounds e (round env settings d s).1))
          → From env settings Logged live_from server first m (elim next [
            | none ↦ (round env settings d s).1
            | some e ↦ run_loop env settings rounds e (round env settings d s).1
          ])
      step none p rec = p
      step (some e) (m', le, c) rec = let (m'', more, done) = rec e m' c in (m'', omega arith, done)

-- The cursor that `run` starts from.
abbrev pub first_of : Loaded → ℕ
first_of (stored n) = n
first_of _ = 0

abbrev pub first_cursor : {T : Type 0} → Environment T → T → ℕ
first_cursor env t = if env.has_store then first_of (env.load t).0 else 0

-- The last cursor and every saved one: the wanted events up to it were sent.
abbrev pub CursorsCovered :
    {T : Type 0} → Environment T → Settings → (MessageEvent → Type 0) → ℕ → Engine T → Type 0
CursorsCovered env settings Logged first s =
    All (Covers env settings Logged first s.sent) (s.cursor ∷ s.saved)

module _ {T : Type 0} (env : Environment T) (settings : Settings) (Logged : MessageEvent → Type 0)
    (live_from : T → ℕ) (server : IsServer env settings Logged live_from) where
  abbrev AllCovered : ℕ → Engine T → Type 0
  AllCovered first s = CursorsCovered env settings Logged first s

  started-CursorsCovered :
      (rounds n : ℕ) (t : T)
      → AllCovered n (run_loop env settings rounds settings.min_backoff (start env settings n t))
  started-CursorsCovered rounds n t =
      let (m, le, (covers, low, saved)) =
        run_loop-From env settings Logged live_from server n rounds settings.min_backoff
          (start env settings n t) n ((λ e w after upto. absurd (omega arith)), omega arith, tt) in
      let s = run_loop env settings rounds settings.min_backoff (start env settings n t) in
      let up : (k : ℕ) → k ≤ m → Covers env settings Logged n s.sent k =
        λ k h e w after upto. covers e w after (omega arith) in
      (up s.cursor low, All-imp (λ k. k ≤ m) (Covers env settings Logged n s.sent) s.saved up saved)

  -- With such a server, whatever the consumer, the store, the context and the timer do and however
  -- often the streams break: every wanted event after the first cursor and up to the last cursor
  -- was sent to the consumer, and the same holds of every cursor that was saved. So a process that
  -- starts from a saved cursor has missed nothing.
  pub run_gap_free :
      (rounds : ℕ) (t : T)
      → CursorsCovered env settings Logged (first_cursor env t) (run env settings rounds t)
  unfolding run
  run_gap_free rounds t = go env.has_store (env.load t)
    where
      loaded : (r : Loaded × T) → AllCovered (first_of r.0) (run_loaded env settings rounds r)
      loaded (load_failed err, t') = ((λ e w after upto. absurd (omega arith)), tt)
      loaded (nothing, t') = started-CursorsCovered rounds 0 t'
      loaded (stored n, t') = started-CursorsCovered rounds n t'

      go :
          (b : Bool) (r : Loaded × T)
          → AllCovered (if b then first_of r.0 else 0) (
              if b
              then run_loaded env settings rounds r
              else run_loop env settings rounds settings.min_backoff (start env settings 0 t))
      go true r = loaded r
      go false r = started-CursorsCovered rounds 0 t
