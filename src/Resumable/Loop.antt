-- ===== src/Resumable/Loop.antt =====
-- resumable.go: the loop of `run`, which reconnects, and its delays.
use advanced_imessage_go.Prelude.{
  ℕ, zero, suc, [], ◌∷◌, ◌++◌, Bool, Option, none, some, if◌then◌else◌,
}
use advanced_imessage_go.Prelude.Int.{ℤ}
use advanced_imessage_go.Errors.Chain.{GoError, nil}
use advanced_imessage_go.Resumable.{
  Settings, Loaded, load_failed, nothing, stored, Environment, Engine, next_backoff, catch_up, live,
}

module _ {T : Type 0} (env : Environment T) (settings : Settings) where
  -- `ctx.Err() != nil`
  abbrev pub check_done : Engine T → Bool × Engine T
  check_done s = let (d, t) = env.done s.world in (d, record s { world = t })

  -- The wait of `sleepBackoff`; true if the timer fired.
  abbrev pub sleep : ℤ → Engine T → Bool × Engine T
  sleep d s =
      let (fired, t) = env.sleeps d s.world in
      (fired, record s { slept = s.slept ++ d ∷ []; world = t })

  -- What a round of the loop of `run` ends with: the next delay, or the end of the loop.
  -- After a failed catch-up the delay is the current one; after a live subscription it starts
  -- again from the minimum. Where `live` failed, the context is looked at once more.
  abbrev pub pause : ℤ → Engine T → Option ℤ × Engine T
  pause backoff s =
      let (over, s₁) = check_done s in
      if over
      then (none, s₁)
      else let (fired, s₂) = sleep backoff s₁ in
        (if fired then some (next_backoff backoff settings.max_backoff) else none, s₂)

  abbrev pub after_live : GoError × Engine T → Option ℤ × Engine T
  after_live (nil, s) = pause settings.min_backoff s
  after_live (err, s) =
      let (over, s') = check_done s in if over then (none, s') else pause settings.min_backoff s'

  abbrev pub after_catch_up : ℤ → GoError × Engine T → Option ℤ × Engine T
  after_catch_up backoff (nil, s) = after_live (live env settings s)
  after_catch_up backoff (err, s) = pause backoff s

  unfoldable pub round : ℤ → Engine T → Option ℤ × Engine T
  unfolding live catch_up
  round backoff s =
      let (over, s₁) = check_done s in
      if over then (none, s₁) else after_catch_up backoff (catch_up env settings s₁)

  -- The loop of `run`, for a number of rounds.
  unfoldable pub run_loop : ℕ → ℤ → Engine T → Engine T
  unfolding round
  run_loop zero backoff s = s
  run_loop (suc rounds) backoff s =
      let (next, s') = round backoff s in elim next [ none ↦ s' | some d ↦ run_loop rounds d s' ]

  abbrev pub start : ℕ → T → Engine T
  start n t = record { cursor = n; sent = []; sent_errors = []; saved = []; slept = []; world = t }

  abbrev pub run_loaded : ℕ → Loaded × T → Engine T
  run_loaded rounds (load_failed err, t) =
      let (taken, t') = env.accepts_error err t in
      record (start 0 t') { sent_errors = if taken then err ∷ [] else [] }
  run_loaded rounds (nothing, t) = run_loop rounds settings.min_backoff (start 0 t)
  run_loaded rounds (stored n, t) = run_loop rounds settings.min_backoff (start n t)

  -- `run`, stopped after a number of rounds at the latest.
  unfoldable pub run : ℕ → T → Engine T
  unfolding run_loop
  run rounds t =
      if env.has_store
      then run_loaded rounds (env.load t)
      else run_loop rounds settings.min_backoff (start 0 t)
