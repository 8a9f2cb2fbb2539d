-- ===== src/Examples/Replays.antt =====
-- A resumable subscription to a server with three message events, of which catch-up reports the
-- first two and the live stream the third.
use advanced_imessage_go.Prelude.{
  ℕ, ◌≤◌, ◌<◌, List, [], ◌∷◌, ◌++◌, Bool, true, false, none, ltb, Bool-cases, ◌≡◌, ◌≢◌, ◌⊎◌, inl,
  inr, refl, ap, arith, All,
}
use advanced_imessage_go.Prelude.Text.{bytes}
use advanced_imessage_go.Prelude.Int.{pos}
use advanced_imessage_go.Errors.Chain.{nil, opaque}
use advanced_imessage_go.Model.Common.{zero_time}
use advanced_imessage_go.Model.Events.{
  MessageEvent, message_read, CatchUpEvent, CatchupComplete, message_event, catchup_complete,
}
use advanced_imessage_go.Resumable.{
  Settings, Environment, nothing, message_event_meta, catch_up_loop,
}
use advanced_imessage_go.Resumable.Loop.{start, run}
use advanced_imessage_go.Resumable.Coverage.{sequence_of, IsNext, Replays}
use advanced_imessage_go.Resumable.GapFree.{IsServer, Meets}
use advanced_imessage_go.Resumable.GapFree.Rounds.{CursorsCovered, first_cursor, run_gap_free}
use advanced_imessage_go.Resumable.Delays.{InBounds, HasBounds, run_delays}
use advanced_imessage_go.Resumable.Progress.{selected, catch_up_complete, catch_up_broken}

abbrev read_at : ℕ → MessageEvent
read_at n = message_read (record {
  event_context = record {
    actor = none;
    chat_guid = bytes "a";
    is_from_me = false;
    occurred_at = zero_time;
  };
  sequence = n;
  message_guid = bytes "m";
  read_at = zero_time;
})

abbrev Logged : MessageEvent → Type 0
Logged e = (e ≡ read_at 3) ⊎ (e ≡ read_at 5) ⊎ (e ≡ read_at 7)

abbrev complete : CatchupComplete
complete = record { head_sequence = 5 }

abbrev replay_from : Bool → Bool → List CatchUpEvent
replay_from true _ =
    message_event (read_at 3) ∷ message_event (read_at 5) ∷ catchup_complete complete ∷ []
replay_from false true = message_event (read_at 5) ∷ catchup_complete complete ∷ []
replay_from false false = catchup_complete complete ∷ []

abbrev env : Environment ℕ
env = record {
  has_store = true;
  load = λ t. (nothing, t);
  save = λ n t. (nil, t);
  done = λ t. (false, t);
  catch_up_stream = λ c t. (record { events = replay_from (ltb c 3) (ltb c 5); err = nil }, t);
  live_stream = λ chat t. (record { events = read_at 7 ∷ []; err = opaque (bytes "reset") }, t);
  accepts = λ ev t. (true, t);
  accepts_error = λ err t. (true, t);
  sleeps = λ d t. (true, t);
}

abbrev settings : Settings
settings = record { chat = []; min_backoff = pos 500000000; max_backoff = pos 30000000000 }

sequence_of-read_at : (n : ℕ) → sequence_of (read_at n) ≡ n
unfolding message_event_meta
sequence_of-read_at n = refl

IsNext-of :
    (p n : ℕ)
    → p < n
    → ((e : MessageEvent) → Logged e → p < sequence_of e → sequence_of e ≤ n → e ≡ read_at n)
    → IsNext env settings Logged p (read_at n)
IsNext-of p n h only = (
  omega (arith, h, sequence_of-read_at n),
  λ e w after upto. only e w.0 after (omega (arith, upto, sequence_of-read_at n)),
)

only_three :
    (p : ℕ) (e : MessageEvent) → Logged e → p < sequence_of e → sequence_of e ≤ 3 → e ≡ read_at 3
only_three p e (inl h) after upto = h
only_three p e (inr (inl h)) after upto =
    absurd (omega (arith, ap sequence_of h, sequence_of-read_at 5))
only_three p e (inr (inr h)) after upto =
    absurd (omega (arith, ap sequence_of h, sequence_of-read_at 7))

only_five :
    (p : ℕ) (e : MessageEvent)
    → 3 ≤ p
    → Logged e
    → p < sequence_of e
    → sequence_of e ≤ 5
    → e ≡ read_at 5
only_five p e low (inl h) after upto =
    absurd (omega (arith, ap sequence_of h, sequence_of-read_at 3))
only_five p e low (inr (inl h)) after upto = h
only_five p e low (inr (inr h)) after upto =
    absurd (omega (arith, ap sequence_of h, sequence_of-read_at 7))

only_seven :
    (p : ℕ) (e : MessageEvent)
    → 5 ≤ p
    → Logged e
    → p < sequence_of e
    → sequence_of e ≤ 7
    → e ≡ read_at 7
only_seven p e low (inl h) after upto =
    absurd (omega (arith, ap sequence_of h, sequence_of-read_at 3))
only_seven p e low (inr (inl h)) after upto =
    absurd (omega (arith, ap sequence_of h, sequence_of-read_at 5))
only_seven p e low (inr (inr h)) after upto = h

last_Replays : (p : ℕ) → 5 ≤ p → Replays env settings Logged p (catchup_complete complete ∷ [])
last_Replays p low ev w after = omega (arith, low, after)

five_Replays :
    (p : ℕ)
    → 3 ≤ p
    → p < 5
    → Replays env settings Logged p (message_event (read_at 5) ∷ catchup_complete complete ∷ [])
five_Replays p low up = (
  IsNext-of p 5 up (λ e l after upto. only_five p e low l after upto),
  last_Replays (sequence_of (read_at 5)) (omega (arith, sequence_of-read_at 5)),
)

env-IsServer : IsServer env settings Logged (λ t. 5)
env-IsServer = record {
  replays = λ c t. elim (Bool-cases (ltb c 3)) [
    | inl b ↦ rw b (
      IsNext-of c 3 (ground arith) (λ e l after upto. only_three c e l after upto),
      five_Replays (sequence_of (read_at 3)) (omega (arith, sequence_of-read_at 3))
          (omega (arith, sequence_of-read_at 3)),
    )
    | inr b ↦ elim (Bool-cases (ltb c 5)) [
      | inl k ↦ rw (b, k) (five_Replays c (ground arith) (ground arith))
      | inr k ↦ rw (b, k) (last_Replays c (ground arith))
    ]
  ];
  follows = λ t. (
    IsNext-of 5 7 (omega arith) (λ e l after upto. only_seven 5 e (omega arith) l after upto),
    tt,
  );
  meets = λ c t. meet (ltb c 3) (ltb c 5);
  accepts_fixed = λ ev t. refl;
  save_fixed = λ n t. refl;
}
  where
    meet : (a b : Bool) → Meets 5 (replay_from a b)
    meet true b = omega arith
    meet false true = omega arith
    meet false false = omega arith

run_gap_free_example :
    CursorsCovered env settings Logged (first_cursor env 0) (run env settings 2 0)
run_gap_free_example = run_gap_free env settings Logged (λ t. 5) env-IsServer 2 0

settings-HasBounds : HasBounds settings
settings-HasBounds = record { positive = omega arith; ordered = omega arith; small = omega arith }

run_delays_example : All (InBounds settings) (run env settings 2 0).slept
run_delays_example = run_delays env settings 2 0 settings-HasBounds

catch_up_complete_example :
    let r =
      catch_up_loop env settings
        ((message_event (read_at 3) ∷ [])
          ++ catchup_complete complete ∷ message_event (read_at 7) ∷ [])
        nil
        (start env settings 0 0) in
    (r.0 ≡ nil)
    × (r.1.sent ≡ [] ++ selected env settings (message_event (read_at 3) ∷ []))
    × (5 ≤ r.1.cursor)
catch_up_complete_example =
    catch_up_complete env settings (message_event (read_at 3) ∷ []) (message_event (read_at 7) ∷ [])
      complete nil (start env settings 0 0) (λ ev t. refl) tt

catch_up_broken_example :
    let r =
      catch_up_loop env settings (message_event (read_at 3) ∷ []) nil (start env settings 0 0) in
    (r.0 ≢ nil) × (r.1.sent ≡ [] ++ selected env settings (message_event (read_at 3) ∷ []))
catch_up_broken_example =
    catch_up_broken env settings (message_event (read_at 3) ∷ []) nil (start env settings 0 0)
      (λ ev t. refl) tt
