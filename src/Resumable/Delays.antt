-- ===== src/Resumable/Delays.antt =====
-- The delays between reconnects of resumable.go.
use advanced_imessage_go.Prelude.{
  ℕ, zero, suc, ◌*◌, ◌<◌, ◌≡◌, refl, arith, List, [], ◌∷◌, Bool, true, false, Option, none, some,
  All, All-append, if◌then◌else◌,
}
use advanced_imessage_go.Prelude.Int.{ℤ, pos, negsuc, ◌≤ℤ◌, pos_part, int64, int64_id}
use advanced_imessage_go.Errors.Chain.{GoError, nil}
use advanced_imessage_go.Model.Events.{MessageEvent, CatchUpEvent}
use advanced_imessage_go.Resumable.{
  Settings, Environment, Engine, next_backoff, deliver, catch_up_step, catch_up_loop, catch_up,
  live_loop, live, Loaded, load_failed, nothing, stored,
}
use advanced_imessage_go.Resumable.Loop.{
  pause, after_live, after_catch_up, check_done, sleep, round, run_loop, start, run_loaded, run,
}

-- A delay between the configured bounds.
abbrev pub InBounds : Settings → ℤ → Type 0
InBounds settings d = (settings.min_backoff ≤ℤ d) × (d ≤ℤ settings.max_backoff)

-- Positive bounds in order, and a maximum whose double is still an `int64` (146 years).
pub record HasBounds (settings : Settings) : Type 0 where
  pub positive : pos 1 ≤ℤ settings.min_backoff
  pub ordered : settings.min_backoff ≤ℤ settings.max_backoff
  pub small : pos_part settings.max_backoff < 4611686018427387904

pub next_backoff-InBounds :
    (settings : Settings) (d : ℤ)
    → HasBounds settings
    → InBounds settings d
    → InBounds settings (next_backoff d settings.max_backoff)
unfolding next_backoff
next_backoff-InBounds settings (pos n) h b =
    rw (int64_id (pos (n * 2)) (omega arith, omega arith)) (ground arith, ground arith)
next_backoff-InBounds settings (negsuc n) h b = absurd (ground arith)

-- With a larger maximum the doubling wraps round: the delay after 2^63 - 1 is negative.
next_backoff_wraps : next_backoff (pos 9223372036854775807) (pos 9223372036854775807) ≡ negsuc 1
unfolding next_backoff int64
next_backoff_wraps = refl

module _ {T : Type 0} (env : Environment T) (settings : Settings) where
  deliver-slept : (ev : MessageEvent) (s : Engine T) → (deliver env settings ev s).1.slept ≡ s.slept
  unfolding deliver
  deliver-slept ev s = ground arith

  step-slept :
      (ev : CatchUpEvent) (s : Engine T) → (catch_up_step env settings ev s).1.slept ≡ s.slept
  unfolding catch_up_step
  step-slept ev s = ground arith

  catch_up_loop-slept :
      (events : List CatchUpEvent) (err : GoError) (s : Engine T)
      → (catch_up_loop env settings events err s).1.slept ≡ s.slept
  unfolding catch_up_loop
  catch_up_loop-slept [] nil s = refl
  catch_up_loop-slept [] _ s = refl
  catch_up_loop-slept (ev ∷ events) err s =
      ground
        (arith, step-slept ev s, catch_up_loop-slept events err (catch_up_step env settings ev s).1)

  live_loop-slept :
      (events : List MessageEvent) (err : GoError) (s : Engine T)
      → (live_loop env settings events err s).1.slept ≡ s.slept
  unfolding live_loop
  live_loop-slept [] err s = refl
  live_loop-slept (ev ∷ events) err s =
      ground (arith, deliver-slept ev s, live_loop-slept events err (deliver env settings ev s).1)

  catch_up-slept : (s : Engine T) → (catch_up env settings s).1.slept ≡ s.slept
  unfolding catch_up
  catch_up-slept s =
      let (stream, t) = env.catch_up_stream s.cursor s.world in
      catch_up_loop-slept stream.events stream.err (record s { world = t })

  live-slept : (s : Engine T) → (live env settings s).1.slept ≡ s.slept
  unfolding live
  live-slept s =
      let (stream, t) = env.live_stream settings.chat s.world in
      live_loop-slept stream.events stream.err (record s { world = t })

  abbrev AllInBounds : Engine T → Type 0
  AllInBounds s = All (InBounds settings) s.slept

  abbrev NextInBounds : Option ℤ → Type 0
  NextInBounds none = Unit
  NextInBounds (some d) = InBounds settings d

  -- The delays begun and the next one are in bounds.
  abbrev IsPaced : Option ℤ × Engine T → Type 0
  IsPaced r = NextInBounds r.0 × AllInBounds r.1

  pause-IsPaced :
      (d : ℤ) (s : Engine T)
      → HasBounds settings
      → InBounds settings d
      → AllInBounds s
      → IsPaced (pause env settings d s)
  pause-IsPaced d s h b all = go (env.done s.world).0
    where
      slept : AllInBounds (sleep env settings d (check_done env settings s).1).1
      slept = All-append (InBounds settings) s.slept (d ∷ []) all (b, tt)

      woken :
          (fired : Bool)
          → NextInBounds (if fired then some (next_backoff d settings.max_backoff) else none)
      woken true = next_backoff-InBounds settings d h b
      woken false = tt

      go :
          (over : Bool)
          → IsPaced (
              if over
              then (none, (check_done env settings s).1)
              else let (fired, s₂) = sleep env settings d (check_done env settings s).1 in
                (if fired then some (next_backoff d settings.max_backoff) else none, s₂))
      go true = (tt, all)
      go false = (woken _, slept)

  after_live-IsPaced :
      (r : GoError × Engine T)
      → HasBounds settings
      → AllInBounds r.1
      → IsPaced (after_live env settings r)
  after_live-IsPaced (nil, s) h all =
      pause-IsPaced settings.min_backoff s h (omega (arith, h.ordered), h.ordered) all
  after_live-IsPaced (_, s) h all = go (env.done s.world).0
    where
      go :
          (over : Bool)
          → IsPaced (
              if over
              then (none, (check_done env settings s).1)
              else pause env settings settings.min_backoff (check_done env settings s).1)
      go true = (tt, all)
      go false =
          pause-IsPaced settings.min_backoff (check_done env settings s).1 h
            (omega (arith, h.ordered), h.ordered) all

  after-IsPaced :
      (d : ℤ) (r : GoError × Engine T)
      → HasBounds settings
      → InBounds settings d
      → AllInBounds r.1
      → IsPaced (after_catch_up env settings d r)
  after-IsPaced d (nil, s) h b all =
      after_live-IsPaced (live env settings s) h (rw (live-slept s) all)
  after-IsPaced d (_, s) h b all = pause-IsPaced d s h b all

  round-IsPaced :
      (d : ℤ) (s : Engine T)
      → HasBounds settings
      → InBounds settings d
      → AllInBounds s
      → IsPaced (round env settings d s)
  unfolding round
  round-IsPaced d s h b all = go (env.done s.world).0
    where
      go :
          (over : Bool)
          → IsPaced (
              if over
              then (none, (check_done env settings s).1)
              else after_catch_up env settings d
                  (catch_up env settings (check_done env settings s).1))
      go true = (tt, all)
      go false =
          after-IsPaced d (catch_up env settings (check_done env settings s).1) h b
            (rw (catch_up-slept (check_done env settings s).1) all)

  run_loop-AllInBounds :
      (rounds : ℕ) (d : ℤ) (s : Engine T)
      → HasBounds settings
      → InBounds settings d
      → AllInBounds s
      → AllInBounds (run_loop env settings rounds d s)
  unfolding run_loop
  run_loop-AllInBounds zero d s h b all = all
  run_loop-AllInBounds (suc rounds) d s h b all =
      go (round env settings d s).0 refl (round-IsPaced d s h b all)
        (λ e p q. run_loop-AllInBounds rounds e (round env settings d s).1 h p q)
    where
      s' : Engine T
      s' = (round env settings d s).1

      go :
          (next : Option ℤ)
          → (round env settings d s).0 ≡ next
          → NextInBounds (round env settings d s).0 × AllInBounds s'
          → ((e : ℤ)
              → InBounds settings e
              → AllInBounds s'
              → AllInBounds (run_loop env settings rounds e s'))
          → AllInBounds (elim next [ none ↦ s' | some e ↦ run_loop env settings rounds e s' ])
      go none e p rec = p.1
      go (some e) q p rec = rec e (rw q at p.0) p.1

  -- With positive bounds in order, and a `MaxBackoff` below 2^62 nanoseconds (146 years), every
  -- delay that a run begins lies between the bounds, however many rounds it goes through and
  -- whatever the store, the streams and the consumer do. The bound of 2^62 is what keeps the
  -- doubled delay from wrapping round.
  pub run_delays :
      (rounds : ℕ) (t : T)
      → HasBounds settings
      → All (InBounds settings) (run env settings rounds t).slept
  unfolding run
  run_delays rounds t h = go env.has_store (env.load t)
    where
      first :
          (n : ℕ) (t' : T)
          → AllInBounds
              (run_loop env settings rounds settings.min_backoff (start env settings n t'))
      first n t' =
          run_loop-AllInBounds rounds settings.min_backoff (start env settings n t') h
            (omega (arith, h.ordered), h.ordered) tt

      loaded : (r : Loaded × T) → AllInBounds (run_loaded env settings rounds r)
      loaded (load_failed err, t') = tt
      loaded (nothing, t') = first 0 t'
      loaded (stored n, t') = first n t'

      go :
          (b : Bool) (r : Loaded × T)
          → AllInBounds (
              if b
              then run_loaded env settings rounds r
              else run_loop env settings rounds settings.min_backoff (start env settings 0 t))
      go true r = loaded r
      go false r = first 0 t
