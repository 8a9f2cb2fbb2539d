-- ===== src/Convert/Common/Kinds.antt =====
-- The enumerations of conv_common.go: what survives a conversion and the way back.
use advanced_imessage_go.Prelude.{true, false, ◌≡◌, ◌⊎◌, inl, inr, refl, arith}
use advanced_imessage_go.Prelude.Text.{str_eq, str_eq_iff}
use advanced_imessage_go.Model.Kinds.{
  MessageReactionKind, reaction_love, reaction_like, reaction_dislike, reaction_laugh,
  reaction_emphasize, reaction_question, reaction_emoji, reaction_unknown,
}
use advanced_imessage_go.Wire.Common.{PbReactionKind}
use advanced_imessage_go.Convert.Common.{reaction_kind_from_proto, reaction_kind_to_proto}

-- A kind that callers may set survives the way to the protocol and back.
pub reaction_kind_roundtrip :
    (k : MessageReactionKind)
    → (reaction_kind_to_proto k).1 ≡ true
    → reaction_kind_from_proto (reaction_kind_to_proto k).0 ≡ k
unfolding reaction_kind_to_proto reaction_kind_from_proto
reaction_kind_roundtrip k h = ground (
  arith,
  str_eq_iff k reaction_love,
  str_eq_iff k reaction_like,
  str_eq_iff k reaction_dislike,
  str_eq_iff k reaction_laugh,
  str_eq_iff k reaction_emphasize,
  str_eq_iff k reaction_question,
  str_eq_iff k reaction_emoji,
)

-- Of the kinds of the protocol, callers may set exactly those with a name other than "sticker",
-- and setting one sends the same kind back.
pub reaction_kind_settable :
    (p : PbReactionKind)
    → (reaction_kind_to_proto (reaction_kind_from_proto p) ≡ (p, true))
      ⊎ (((p ≡ PbReactionKind.sticker) ⊎ (reaction_kind_from_proto p ≡ reaction_unknown))
          × ((reaction_kind_to_proto (reaction_kind_from_proto p)).1 ≡ false))
unfolding reaction_kind_to_proto reaction_kind_from_proto str_eq
reaction_kind_settable PbReactionKind.love = inl refl
reaction_kind_settable PbReactionKind.like = inl refl
reaction_kind_settable PbReactionKind.dislike = inl refl
reaction_kind_settable PbReactionKind.laugh = inl refl
reaction_kind_settable PbReactionKind.emphasize = inl refl
reaction_kind_settable PbReactionKind.question = inl refl
reaction_kind_settable PbReactionKind.emoji = inl refl
reaction_kind_settable PbReactionKind.sticker = inr (inl refl, refl)
reaction_kind_settable (PbReactionKind.other n) = inr (inr refl, refl)
