-- ===== src/Examples/Streams.antt =====
-- Public subscriptions, and a resumable subscription on a client.
use advanced_imessage_go.Prelude.{ℕ, zero, suc, List, [], ◌∷◌, ◌≡◌, true, refl}
use advanced_imessage_go.Prelude.Text.{bytes}
use advanced_imessage_go.Errors.Chain.{GoError, opaque, ConnectText}
use advanced_imessage_go.Errors.Convert.{as_error}
use advanced_imessage_go.Transport.Runtime.{Outcome, ok}
use advanced_imessage_go.Transport.Subscription.{
  Mapped, emit, drop, receiving, sending, value, ranging, left, Subscription, subscribe, after_map,
  after_open, Steps, stay, go, first_range, open_stream, receive, yield_value,
}
use advanced_imessage_go.Streams.{Opened, drained}
use advanced_imessage_go.Streams.Drained.{drained_reached}

abbrev texts : ConnectText
texts = record { code_text = λ c. bytes "status"; error_text = λ c m. m }

-- A stream of three frames, of which the second is dropped, and which is then reset.
abbrev convert : ℕ → Mapped ℕ
convert zero = drop
convert (suc n) = emit (suc n)

abbrev reset : Opened ℕ ℕ ℕ
reset = record {
  open_stream = λ s. (ok (5 ∷ 0 ∷ 7 ∷ [], opaque (bytes "reset")), s);
  convert = convert;
}

abbrev frames : Outcome (List ℕ × GoError)
frames = (reset.open_stream 0).0

-- A consumer that has taken the first event.
abbrev underway : Subscription ℕ ℕ
underway = record subscribe {
  pump = receiving (0 ∷ 7 ∷ []) (opaque (bytes "reset"));
  consumed = true;
  consumer = ranging;
  yielded = 5 ∷ [];
}

abbrev looping : Subscription ℕ ℕ
looping = record subscribe { consumed = true; consumer = ranging }

abbrev at_start : Subscription ℕ ℕ
at_start = record looping { pump = after_open frames }

abbrev at_send : Subscription ℕ ℕ
at_send = record looping {
  pump = sending (value 5) (receiving (0 ∷ 7 ∷ []) (opaque (bytes "reset")));
}

so_far : Steps convert frames subscribe underway
unfolding after_open after_map
so_far =
    go
      (go (go (go (stay subscribe) (first_range subscribe refl)) (open_stream looping refl))
        (receive at_start 5 (0 ∷ 7 ∷ []) (opaque (bytes "reset")) refl))
      (yield_value at_send 5 (receiving (0 ∷ 7 ∷ []) (opaque (bytes "reset"))) refl refl)

drained_reached_example :
    (t : Subscription ℕ ℕ) × Steps convert frames underway t
    × (t.yielded ≡ (drained ⦃ct = texts⦄ reset 0).0.events)
    × (as_error ⦃ct = texts⦄ t.err ≡ (drained ⦃ct = texts⦄ reset 0).0.err)
    × (t.consumer ≡ left)
drained_reached_example = drained_reached ⦃ct = texts⦄ reset 0 so_far refl refl
