-- ===== src/Convert/Content/Sorted.antt =====
-- The lists that conv_message.go and conv_poll.go sort: the protocol delivers them in any order,
-- and callers see them in one order.
use mathlib.Core.List.{Permᴰ}
use advanced_imessage_go.Prelude.{Ordering, List, some, map, ◌≡◌, ◌≢◌, ap}
use advanced_imessage_go.Prelude.Text.{compare_str}
use advanced_imessage_go.Prelude.Sort.{
  IsComparison, AreDistinct, sort_func, sort_func-IsSorted, sort_func-perm, sort_func_of_perm,
}
use advanced_imessage_go.Prelude.Order.{
  compare_ℤ, compare_ℤ-IsComparison, compare_str-IsComparison, on-IsComparison,
  and_then-IsComparison,
}
use advanced_imessage_go.Prelude.Ordered.{
  IsOrdered, StampLe, PairLe, IsSorted-IsOrdered, compare-StampLe, compare-PairLe,
}
use advanced_imessage_go.Model.Message.{MessageAppliedReaction, MessagePlacedSticker}
use advanced_imessage_go.Model.Poll.{PollParticipantVote}
use advanced_imessage_go.Wire.Common.{Timestamps}
use advanced_imessage_go.Wire.Message.{PbAppliedReaction, PbPlacedSticker}
use advanced_imessage_go.Wire.Changes.{PbPoll, PbPollVote}
use advanced_imessage_go.Convert.Content.{
  compare_reactions, compare_stickers, applied_reaction_from_proto, applied_reactions_from_proto,
  placed_sticker_from_proto, placed_stickers_from_proto,
}
use advanced_imessage_go.Convert.Poll.{
  poll_option_from_proto, compare_votes, poll_vote_from_proto, poll_from_proto,
}

pub map-perm {ℓ κ} :
    {A : Type ℓ} {B : Type κ} (f : A → B) {l m : List A} → Permᴰ l m → Permᴰ (map f l) (map f m)
map-perm f Permᴰ.nil = Permᴰ.nil
map-perm f (Permᴰ.cons e p) = Permᴰ.cons (ap f e) (map-perm f p)
map-perm f (Permᴰ.swap e g) = Permᴰ.swap (ap f e) (ap f g)
map-perm f (Permᴰ.trans p q) = Permᴰ.trans (map-perm f p) (map-perm f q)

pub compare_reactions-IsComparison : IsComparison compare_reactions
compare_reactions-IsComparison =
    and_then-IsComparison (λ a b. compare_ℤ a.date_created b.date_created)
      (λ a b. compare_str a.message_guid b.message_guid)
      (on-IsComparison (λ a. a.date_created) compare_ℤ compare_ℤ-IsComparison)
      (on-IsComparison (λ a. a.message_guid) compare_str compare_str-IsComparison)

pub compare_stickers-IsComparison : IsComparison compare_stickers
compare_stickers-IsComparison =
    and_then-IsComparison (λ a b. compare_ℤ a.date_created b.date_created)
      (λ a b. compare_str a.message_guid b.message_guid)
      (on-IsComparison (λ a. a.date_created) compare_ℤ compare_ℤ-IsComparison)
      (on-IsComparison (λ a. a.message_guid) compare_str compare_str-IsComparison)

pub compare_votes-IsComparison : IsComparison compare_votes
compare_votes-IsComparison =
    and_then-IsComparison (λ a b. compare_str a.participant.address b.participant.address)
      (λ a b. compare_str a.option_id b.option_id)
      (on-IsComparison (λ a. a.participant.address) compare_str compare_str-IsComparison)
      (on-IsComparison (λ a. a.option_id) compare_str compare_str-IsComparison)

-- `out` holds the elements of `l`, each as often, each related by `R` to every later one.
abbrev pub IsSortedCopy {ℓ κ} : {A : Type ℓ} → (A → A → Type κ) → (out l : List A) → Type (ℓ ⊔ κ)
IsSortedCopy R out l = IsOrdered R out × Permᴰ out l

module _ {ℓ κ} {A : Type ℓ} (cmp : A → A → Ordering) (laws : IsComparison cmp) where
  pub sort_func-IsSortedCopy :
      (R : A → A → Type κ)
      → ((a b : A) → cmp a b ≢ Ordering.gt → R a b)
      → (l : List A) → IsSortedCopy R (sort_func cmp l) l
  sort_func-IsSortedCopy R f l = (
    IsSorted-IsOrdered cmp R f (sort_func cmp l) (sort_func-IsSorted cmp laws l),
    sort_func-perm cmp l,
  )

-- The orders of the lists: reactions and stickers by time and then by message, votes by the
-- address of the voter and then by option.
abbrev pub ReactionLe : MessageAppliedReaction → MessageAppliedReaction → Type 0
ReactionLe a b = StampLe a.date_created a.message_guid b.date_created b.message_guid

abbrev pub StickerLe : MessagePlacedSticker → MessagePlacedSticker → Type 0
StickerLe a b = StampLe a.date_created a.message_guid b.date_created b.message_guid

abbrev pub VoteLe : PollParticipantVote → PollParticipantVote → Type 0
VoteLe a b = PairLe a.participant.address a.option_id b.participant.address b.option_id

module _ ⦃ts : Timestamps⦄ where
  -- The reactions and the stickers of a message are those of the protocol message, earlier times
  -- before later ones and, at one time, in the byte order of the message GUIDs; the votes of a poll
  -- are in the byte order of the voters' addresses and, for one address, of the options. None is
  -- lost, added or repeated.
  pub converted_lists_IsSortedCopy :
      (reactions : List PbAppliedReaction) (stickers : List PbPlacedSticker) (poll : PbPoll)
      → IsSortedCopy ReactionLe
          (applied_reactions_from_proto reactions)
          (map applied_reaction_from_proto reactions)
        × IsSortedCopy StickerLe
            (placed_stickers_from_proto stickers)
            (map placed_sticker_from_proto stickers)
        × IsSortedCopy VoteLe
            (poll_from_proto (some poll)).votes
            (map poll_vote_from_proto poll.votes)
  unfolding applied_reactions_from_proto placed_stickers_from_proto poll_from_proto
  converted_lists_IsSortedCopy reactions stickers poll = (
    sort_func-IsSortedCopy compare_reactions compare_reactions-IsComparison ReactionLe
        (λ a b. compare-StampLe a.date_created b.date_created a.message_guid b.message_guid)
        (map applied_reaction_from_proto reactions),
    sort_func-IsSortedCopy compare_stickers compare_stickers-IsComparison StickerLe
        (λ a b. compare-StampLe a.date_created b.date_created a.message_guid b.message_guid)
        (map placed_sticker_from_proto stickers),
    sort_func-IsSortedCopy compare_votes compare_votes-IsComparison VoteLe
        (λ a b. compare-PairLe a.participant.address b.participant.address a.option_id b.option_id)
        (map poll_vote_from_proto poll.votes),
  )

  -- The reactions come out the same in whatever order the server lists them, if no two of them
  -- agree in both time and message.
  pub applied_reactions_of_perm :
      {l m : List PbAppliedReaction}
      → Permᴰ l m
      → AreDistinct compare_reactions (map applied_reaction_from_proto l)
      → applied_reactions_from_proto l ≡ applied_reactions_from_proto m
  unfolding applied_reactions_from_proto
  applied_reactions_of_perm p d =
      sort_func_of_perm compare_reactions compare_reactions-IsComparison
        (map-perm applied_reaction_from_proto p) d

  -- The stickers come out the same in whatever order the server lists them, if no two of them
  -- agree in both time and message.
  pub placed_stickers_of_perm :
      {l m : List PbPlacedSticker}
      → Permᴰ l m
      → AreDistinct compare_stickers (map placed_sticker_from_proto l)
      → placed_stickers_from_proto l ≡ placed_stickers_from_proto m
  unfolding placed_stickers_from_proto
  placed_stickers_of_perm p d =
      sort_func_of_perm compare_stickers compare_stickers-IsComparison
        (map-perm placed_sticker_from_proto p) d

-- A poll comes out the same in whatever order the server lists its votes, if no two of them agree
-- in both the address of the voter and the option.
pub poll_of_perm :
    (poll : PbPoll) {votes : List PbPollVote}
    → Permᴰ poll.votes votes
    → AreDistinct compare_votes (map poll_vote_from_proto poll.votes)
    → poll_from_proto (some poll) ≡ poll_from_proto (some (record poll { votes = votes }))
unfolding poll_from_proto
poll_of_perm poll {votes} p d =
    ap
      (λ l. record {
        poll_message_guid = poll.poll_message_guid;
        chat_guid = poll.chat_guid;
        title = poll.title;
        options = map poll_option_from_proto poll.options;
        votes = l;
      })
      (sort_func_of_perm compare_votes compare_votes-IsComparison (map-perm poll_vote_from_proto p)
        d)
