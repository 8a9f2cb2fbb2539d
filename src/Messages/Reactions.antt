-- ===== src/Messages/Reactions.antt =====
-- Which reactions `AddReaction` and `RemoveReaction` of messages.go send, and as what.
use advanced_imessage_go.Prelude.{
  [], Bool, true, false, ◌&&◌, Option, none, some, ◌≡◌, ◌≢◌, ◌⊎◌, inl, inr, refl, arith, Bool-cases,
  ap, ◌∙◌,
}
use advanced_imessage_go.Prelude.Text.{GoString, str_eq, str_eq_iff, is_empty, empty_cases}
use advanced_imessage_go.ChatGuid.{ChatGuid}
use advanced_imessage_go.Errors.Codes.{code_invalid_argument}
use advanced_imessage_go.Errors.Chain.{GoError, ConnectText}
use advanced_imessage_go.Errors.Convert.{is_validation, code_of}
use advanced_imessage_go.Client.{invalid_argument}
use advanced_imessage_go.Client.Calls.{invalid_argument-is_validation}
use advanced_imessage_go.Transport.Runtime.{Context, fail}
use advanced_imessage_go.Model.Kinds.{
  MessageReactionKind, reaction_love, reaction_like, reaction_dislike, reaction_laugh,
  reaction_emphasize, reaction_question, reaction_emoji,
}
use advanced_imessage_go.Model.MessageInput.{Reaction, PartOptions}
use advanced_imessage_go.Wire.Common.{Timestamps}
use advanced_imessage_go.Wire.Requests.{PbSetReaction}
use advanced_imessage_go.Convert.Common.{reaction_kind_to_proto, reaction_from_proto}
use advanced_imessage_go.Convert.Common.Kinds.{reaction_kind_roundtrip}
use advanced_imessage_go.Convert.Outgoing.{given, index_to_proto, message_target}
use advanced_imessage_go.Prelude.Int.{ℤ, int32}
use advanced_imessage_go.Messages.{
  MessageService, not_settable, emoji_required, message_result, then_result, set_reaction_request,
  from_options,
}
use advanced_imessage_go.Messages.Sending.{set_reaction}

-- The tapbacks without an emoji of their own.
abbrev IsTapback : MessageReactionKind → Type 0
IsTapback k =
    (k ≡ reaction_love)
    ⊎ (k ≡ reaction_like)
    ⊎ (k ≡ reaction_dislike)
    ⊎ (k ≡ reaction_laugh)
    ⊎ (k ≡ reaction_emphasize)
    ⊎ (k ≡ reaction_question)

-- A tapback, or an emoji reaction with an emoji.
abbrev pub IsValid : Reaction → Type 0
IsValid r = IsTapback r.kind ⊎ ((r.kind ≡ reaction_emoji) × (r.emoji ≢ []))

valid_kind : (r : Reaction) → IsValid r → (reaction_kind_to_proto r.kind).1 ≡ true
unfolding reaction_kind_to_proto
valid_kind r h = ground (
  arith,
  str_eq_iff r.kind reaction_love,
  str_eq_iff r.kind reaction_like,
  str_eq_iff r.kind reaction_dislike,
  str_eq_iff r.kind reaction_laugh,
  str_eq_iff r.kind reaction_emphasize,
  str_eq_iff r.kind reaction_question,
  str_eq_iff r.kind reaction_emoji,
)

apart_of : (k a b : MessageReactionKind) → str_eq a b ≡ false → k ≡ a → k ≢ b
apart_of k a b h p e =
    let unlike : str_eq k b ≡ false = ap (λ x. str_eq x b) p ∙ h in
    let like : str_eq k b ≡ true = (str_eq_iff k b).1 e in absurd cc

tapback_ne_emoji : (k : MessageReactionKind) → IsTapback k → k ≢ reaction_emoji
unfolding str_eq
tapback_ne_emoji k (inl p) = apart_of k reaction_love reaction_emoji refl p
tapback_ne_emoji k (inr (inl p)) = apart_of k reaction_like reaction_emoji refl p
tapback_ne_emoji k (inr (inr (inl p))) = apart_of k reaction_dislike reaction_emoji refl p
tapback_ne_emoji k (inr (inr (inr (inl p)))) = apart_of k reaction_laugh reaction_emoji refl p
tapback_ne_emoji k (inr (inr (inr (inr (inl p))))) =
    apart_of k reaction_emphasize reaction_emoji refl p
tapback_ne_emoji k (inr (inr (inr (inr (inr p))))) =
    apart_of k reaction_question reaction_emoji refl p

valid_emoji :
    (r : Reaction) → IsValid r → (str_eq r.kind reaction_emoji && is_empty r.emoji) ≡ false
valid_emoji r h = ground (arith, str_eq_iff r.kind reaction_emoji, tapback_ne_emoji r.kind)

kind_cases :
    (k : MessageReactionKind)
    → (reaction_kind_to_proto k).1 ≡ true
    → IsTapback k ⊎ (k ≡ reaction_emoji)
unfolding reaction_kind_to_proto
kind_cases k h = ground (
  arith,
  str_eq_iff k reaction_love,
  str_eq_iff k reaction_like,
  str_eq_iff k reaction_dislike,
  str_eq_iff k reaction_laugh,
  str_eq_iff k reaction_emphasize,
  str_eq_iff k reaction_question,
  str_eq_iff k reaction_emoji,
)

IsValid-of :
    (r : Reaction)
    → (reaction_kind_to_proto r.kind).1 ≡ true
    → (str_eq r.kind reaction_emoji && is_empty r.emoji) ≡ false
    → IsValid r
IsValid-of r settable given = elim (kind_cases r.kind settable) [
  | inl h ↦ inl h
  | inr e ↦ inr (e, λ none. ground (arith, (str_eq_iff r.kind reaction_emoji).1 e, none))
]

-- The index of a part in a request: that of the options, cut to 32 bits, or none.
abbrev pub IsIndexOf : Option PartOptions → Option ℤ → Type 0
IsIndexOf none sent = sent ≡ none
IsIndexOf (some opts) sent =
    ((opts.part_index ≡ none) × (sent ≡ none))
    ⊎ ((i : ℤ) × (opts.part_index ≡ some i) × (sent ≡ some (int32 i)))

-- The client message id of a request: that of the options, or none where it is empty.
abbrev pub IsKeyOf : Option PartOptions → Option GoString → Type 0
IsKeyOf none sent = sent ≡ none
IsKeyOf (some opts) sent =
    ((opts.client_message_id ≡ []) × (sent ≡ none))
    ⊎ ((opts.client_message_id ≢ []) × (sent ≡ some opts.client_message_id))

IsIndexOf-given :
    (opts : Option PartOptions)
    → IsIndexOf opts (index_to_proto (from_options (λ o. o.part_index) opts))
IsIndexOf-given none = refl
IsIndexOf-given (some opts) = cases opts.part_index refl
  where
    cases :
        (i : Option ℤ)
        → opts.part_index ≡ i
        → ((opts.part_index ≡ none) × (index_to_proto i ≡ none))
          ⊎ ((j : ℤ) × (opts.part_index ≡ some j) × (index_to_proto i ≡ some (int32 j)))
    cases none e = inl (e, refl)
    cases (some i) e = inr (i, e, refl)

IsKeyOf-given :
    (opts : Option PartOptions) → IsKeyOf opts (from_options (λ o. given o.client_message_id) opts)
IsKeyOf-given none = refl
IsKeyOf-given (some opts) = elim (empty_cases opts.client_message_id) [
  | inl (e, h) ↦ inl (h, ground arith)
  | inr (e, h) ↦ inr (h, ground arith)
]

module _ ⦃ct : ConnectText⦄ ⦃ts : Timestamps⦄ where
  -- An invalid reaction, of any other kind or an emoji reaction without an emoji, is refused with a
  -- validation error of the code "invalidArgument", and nothing is sent.
  pub set_reaction_refused :
      {S : Type 0} (svc : MessageService S) (ctx : Context) (chat : ChatGuid) (guid : GoString)
      (r : Reaction) (is_set : Bool) (opts : Option PartOptions) (s : S)
      → (IsValid r → ⊥)
      → (err : GoError) × (set_reaction svc ctx chat guid r is_set opts s ≡ (fail err, s))
        × (is_validation err ≡ true)
        × (code_of err ≡ code_invalid_argument)
  unfolding set_reaction
  set_reaction_refused svc ctx chat guid r is_set opts s invalid =
      elim (Bool-cases (reaction_kind_to_proto r.kind).1) [
        | inr unknown ↦
            let (validation, code) =
              invalid_argument-is_validation (not_settable (svc.quote r.kind)) in
            (invalid_argument (not_settable (svc.quote r.kind)), ground arith, validation, code)
        | inl settable ↦ elim (Bool-cases (str_eq r.kind reaction_emoji && is_empty r.emoji)) [
          | inl bare ↦
              let (validation, code) = invalid_argument-is_validation emoji_required in
              (invalid_argument emoji_required, ground arith, validation, code)
          | inr given ↦ absurd (invalid (IsValid-of r settable given))
        ]
      ]

  -- A valid reaction is sent in one request, which has the chat, the message, the index of the part
  -- as a 32-bit integer and the client message id of the caller, each where it is given, says
  -- whether to set the reaction, and carries a reaction that reads back as the caller's.
  pub set_reaction_sent :
      {S : Type 0} (svc : MessageService S) (ctx : Context) (chat : ChatGuid) (guid : GoString)
      (r : Reaction) (is_set : Bool) (opts : Option PartOptions) (s : S)
      → IsValid r
      → (req : PbSetReaction) × (set_reaction svc ctx chat guid r is_set opts s
          ≡ then_result message_result (svc.set_reaction_message ctx req) s)
        × (reaction_from_proto (some req.reaction) ≡ record { kind = r.kind; emoji = r.emoji })
        × (req.is_set ≡ is_set)
        × (req.target.chat_guid ≡ chat)
        × (req.target.message_guid ≡ guid)
        × IsIndexOf opts req.target.target_part_index
        × IsKeyOf opts req.client_message_id
  unfolding set_reaction set_reaction_request reaction_from_proto message_target
  set_reaction_sent svc ctx chat guid r is_set opts s valid =
      let settable = valid_kind r valid in
      let given = valid_emoji r valid in
      (
        set_reaction_request chat guid (reaction_kind_to_proto r.kind).0 r is_set opts,
        ground arith,
        ap (λ k. record { kind = k; emoji = r.emoji }) (reaction_kind_roundtrip r.kind settable),
        refl,
        refl,
        refl,
        IsIndexOf-given opts,
        IsKeyOf-given opts,
      )
