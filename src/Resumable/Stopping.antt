-- ===== src/Resumable/Stopping.antt =====
-- When the loop of resumable.go ends.
use mathlib.Core.Path.{subst}
use advanced_imessage_go.Prelude.{
  sym, ℕ, zero, suc, ◌≤◌, ◌≡◌, refl, arith, Bool, true, false, Option, none, some, if◌then◌else◌,
}
use advanced_imessage_go.Prelude.Int.{ℤ}
use advanced_imessage_go.Resumable.{
  Settings, Environment, Engine, Loaded, load_failed, nothing, stored,
}
use advanced_imessage_go.Resumable.Loop.{check_done, round, run_loop, start, run_loaded, run}

-- Nothing was sent, saved or waited for between `s` and `t`, and the cursor is the same.
abbrev pub SameWork : {T : Type 0} → Engine T → Engine T → Type 0
SameWork t s =
    (t.sent ≡ s.sent)
    × (t.sent_errors ≡ s.sent_errors)
    × (t.saved ≡ s.saved)
    × (t.slept ≡ s.slept)
    × (t.cursor ≡ s.cursor)

module _ {T : Type 0} (env : Environment T) (settings : Settings) (IsOver : T → Type 0)
    (stays_over : (t : T) → IsOver t → ((env.done t).0 ≡ true) × IsOver (env.done t).1) where
  -- A round that begins with the context done.
  round_over :
      (d : ℤ) (s : Engine T)
      → IsOver s.world
      → round env settings d s ≡ (none, (check_done env settings s).1)
  unfolding round
  round_over d s h = rw ((stays_over s.world h).0) refl

  -- The rest of the loop after a round.
  abbrev after_round : ℕ → Option ℤ × Engine T → Engine T
  after_round n r = elim r.0 [ none ↦ r.1 | some d ↦ run_loop env settings n d r.1 ]

  run_loop_over :
      (n : ℕ) (d : ℤ) (s : Engine T) → IsOver s.world → SameWork (run_loop env settings n d s) s
  unfolding run_loop
  run_loop_over zero d s h = (refl, refl, refl, refl, refl)
  run_loop_over (suc n) d s h =
      subst (λ r. SameWork (after_round n r) s) (sym (round_over d s h))
        (refl, refl, refl, refl, refl)

  after_round_stable :
      (m n : ℕ) (r : Option ℤ × Engine T)
      → ((d : ℤ) (s : Engine T)
          → IsOver (run_loop env settings m d s).world
          → SameWork (run_loop env settings n d s) (run_loop env settings m d s))
      → IsOver (after_round m r).world
      → SameWork (after_round n r) (after_round m r)
  after_round_stable m n (none, s) rest h = (refl, refl, refl, refl, refl)
  after_round_stable m n (some d, s) rest h = rest d s h

  stable_suc :
      (m n : ℕ) (d : ℤ) (s : Engine T)
      → ((d' : ℤ) (s' : Engine T)
          → IsOver (run_loop env settings m d' s').world
          → SameWork (run_loop env settings n d' s') (run_loop env settings m d' s'))
      → IsOver (run_loop env settings (suc m) d s).world
      → SameWork (run_loop env settings (suc n) d s) (run_loop env settings (suc m) d s)
  unfolding run_loop
  stable_suc m n d s rest h = after_round_stable m n (round env settings d s) rest h

  run_loop_stable :
      (m n : ℕ) (d : ℤ) (s : Engine T)
      → m ≤ n
      → IsOver (run_loop env settings m d s).world
      → SameWork (run_loop env settings n d s) (run_loop env settings m d s)
  run_loop_stable zero n d s le h = unfold run_loop in run_loop_over n d s h
  run_loop_stable (suc m) zero d s le h = absurd (omega arith)
  run_loop_stable (suc m) (suc n) d s le h =
      stable_suc m n d s (λ d' s'. run_loop_stable m n d' s' (omega arith)) h

  loaded_stable :
      (m n : ℕ) (r : Loaded × T)
      → m ≤ n
      → IsOver (run_loaded env settings m r).world
      → SameWork (run_loaded env settings n r) (run_loaded env settings m r)
  loaded_stable m n (load_failed err, t) le h = (refl, refl, refl, refl, refl)
  loaded_stable m n (nothing, t) le h =
      run_loop_stable m n settings.min_backoff (start env settings 0 t) le h
  loaded_stable m n (stored k, t) le h =
      run_loop_stable m n settings.min_backoff (start env settings k t) le h

  -- Once the context is done at the head of a round the engine is finished: however many more rounds the loop is given, nothing more is sent, saved or waited
  -- for, and the cursor stays.
  pub run_stops :
      (m n : ℕ) (t : T)
      → m ≤ n
      → IsOver (run env settings m t).world
      → SameWork (run env settings n t) (run env settings m t)
  unfolding run
  run_stops m n t le h = go env.has_store h
    where
      from : ℕ → Bool → Engine T
      from k b =
          if b
          then run_loaded env settings k (env.load t)
          else run_loop env settings k settings.min_backoff (start env settings 0 t)

      go : (b : Bool) → IsOver (from m b).world → SameWork (from n b) (from m b)
      go true h' = loaded_stable m n (env.load t) le h'
      go false h' = run_loop_stable m n settings.min_backoff (start env settings 0 t) le h'
