-- ===== src/Streams/Replayed.antt =====
-- The subscriptions that subscription.go makes of an iterator.
use mathlib.Core.List.{append_assoc, append-nil}
use advanced_imessage_go.Prelude.{
  List, [], ◌∷◌, ◌++◌, Bool, true, false, some, ◌≡◌, refl, sym, ◌∙◌, Bool-cases, ap, inl, inr,
}
use advanced_imessage_go.Errors.Chain.{nil, ConnectText}
use advanced_imessage_go.Errors.Convert.{as_error}
use advanced_imessage_go.Transport.Runtime.{Action}
use advanced_imessage_go.Streams.{
  EventSource, SeqSource, values, stream, seq_source, new_subscription,
}

module _ {V : Type 0} (goes_on : V → Bool) where
  -- A loop body that notes each event, and breaks where `goes_on` says so.
  abbrev pub noting : V → Action (List V) Bool
  noting v seen = (goes_on v, seen ++ v ∷ [])

  -- The events up to the first at which the body breaks, that one included.
  unfoldable pub up_to_break : List V → List V
  up_to_break [] = []
  up_to_break (v ∷ vs) =
      let rest = up_to_break vs in v ∷ elim (goes_on v) [ true ↦ rest | false ↦ [] ]

  values-noting : (vs seen : List V) → values vs noting seen ≡ seen ++ up_to_break vs
  unfolding values up_to_break
  values-noting [] seen = sym (append-nil seen)
  values-noting (v ∷ vs) seen = elim (Bool-cases (goes_on v)) [
    | inl e ↦ rw e (values-noting vs (seen ++ v ∷ []) ∙ append_assoc seen (v ∷ []) (up_to_break vs))
    | inr e ↦ rw e refl
  ]

  -- A subscription over the iterator of a list gives the loop the events of the list, up to the one
  -- at which the body breaks; it has no error and closing it changes nothing, so that a second loop
  -- gets the same events again.
  pub new_subscription_replays :
      ⦃ct : ConnectText⦄ (vs seen : List V)
      → let sub = new_subscription (some (values vs)) in
        let src : EventSource (SeqSource (List V) V) (List V) V = stream seq_source in
        (src.events noting (sub, seen) ≡ (sub, seen ++ up_to_break vs))
        × (src.err sub ≡ nil)
        × (src.close sub ≡ (nil, sub))
  unfolding stream seq_source as_error
  new_subscription_replays vs seen =
      (ap (λ got. (new_subscription (some (values vs)), got)) (values-noting vs seen), refl, refl)
