-- ===== src/Resumable/Session/Contract.antt =====
-- What a consumer of resumable.go can rely on.
use advanced_imessage_go.Prelude.{true, ◌≡◌, ◌⊎◌}
use advanced_imessage_go.Errors.Chain.{nil}
use advanced_imessage_go.Transport.Subscription.{idle, left, not_called, returned}
use advanced_imessage_go.Resumable.Session.{Goroutine, Session}

module _ {P V : Type 0} (g : Goroutine P V) where
  open g use {Moves, Offers, Gone, gone_still, gone_silent}

  -- A loop that has begun or ended has been counted.
  abbrev Counted : Session P V → Type 0
  Counted s = (s.consumed ≡ true) ⊎ (s.consumer ≡ idle)

  abbrev Closed : Session P V → Type 0
  Closed s =
      ((s.closing ≡ not_called) ⊎ (s.cancelled ≡ true)) × (s.closing ≡ returned → Gone s.engine)

  -- Nothing more comes: the one loop has ended, or the goroutine has returned.
  abbrev Over : Session P V → Type 0
  Over s = ((s.consumer ≡ left) × (s.consumed ≡ true)) ⊎ Gone s.engine

  -- What a session that is over keeps.
  abbrev Keeps : Session P V → Session P V → Type 0
  Keeps s t = Over t × (t.yielded ≡ s.yielded) × ((s.err ≡ nil) ⊎ (t.err ≡ s.err))
