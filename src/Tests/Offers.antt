-- ===== src/Tests/Offers.antt =====
-- The theorems on cards and offers at concrete inputs.
use the_arena_of.Prelude.{
  ℕ, ◌≡◌, ◌<◌, refl, true, List, [], ◌∷◌, ◌++◌, none, ◌⊎◌, length, min, All, list_eq, nat_eq, Perm,
}
use the_arena_of.Prelude.Dict.{get}
use the_arena_of.Text.{lit}
use the_arena_of.Errors.{ok, err, room_error, card_not_in_hand, wrong_offer_size}
use the_arena_of.Prng.{mulberry32, mulberry32-lt}
use the_arena_of.Cards.Defs.{attack, card_beq, CardId, CardEffect, cb1, cb2, cb4}
use the_arena_of.Cards.Engine.{
  SamplingResult, sample_offer, resolve_hand_destroy, resolve_option_disable, wrong_indexes,
}
use the_arena_of.Cards.Engine.Sampling.{sample_offer-total}
use the_arena_of.Cards.Engine.Picks.{
  is_wrong, resolve_hand_destroy-Picks, resolve_option_disable-Picks,
}
use the_arena_of.Match.State.{Machine}
use the_arena_of.Match.CardPlay.{available_pool, pick_offer, pick_card}
use the_arena_of.Match.CardPlay.Hands.{Dealt, IsFresh, pick_card-once, pick_offer-Dealt}
use the_arena_of.Tests.Matches.{new_match}

abbrev three_cards : List CardId
three_cards = cb1 ∷ cb2 ∷ cb4 ∷ []

sample_offer-total_example :
    (d : SamplingResult) × (rest : List CardId) × (sample_offer attack (lit "seed") three_cards
      ≡ ok d)
    × Perm three_cards (d.cards ++ rest)
    × (length d.cards ≡ min 3 (length three_cards))
sample_offer-total_example = sample_offer-total attack (lit "seed") three_cards

resolve_hand_destroy-Picks_example :
    (destroyed rest : List CardId) × (s' : ℕ) × (resolve_hand_destroy mulberry32 7 2 three_cards
      ≡ ok (CardEffect.hand_destroy 2 3 destroyed, s'))
    × Perm three_cards (destroyed ++ rest)
    × (length destroyed ≡ 2)
resolve_hand_destroy-Picks_example =
    resolve_hand_destroy-Picks mulberry32 (λ s. (mulberry32-lt s).0) 7 2 three_cards

resolve_option_disable-Picks_example :
    let options = lit "one" ∷ lit "two" ∷ lit "three" ∷ lit "four" ∷ [] in
    (disabled rest : List ℕ) × (s' : ℕ) × (resolve_option_disable mulberry32 7 2 5000 options
        (lit "two")
      ≡ ok (
        CardEffect.option_disable disabled 2 (length (wrong_indexes 0 (lit "two") options)) 5000,
        s',
      ))
    × All (λ i. is_wrong options (lit "two") i ≡ true) disabled
    × Perm (wrong_indexes 0 (lit "two") options) (disabled ++ rest)
    × (length disabled ≡ min 2 (length (wrong_indexes 0 (lit "two") options)))
resolve_option_disable-Picks_example =
    resolve_option_disable-Picks mulberry32 (λ s. (mulberry32-lt s).0) 7 2 5000
      (lit "one" ∷ lit "two" ∷ lit "three" ∷ lit "four" ∷ []) (lit "two")

-- A player with a class and a hand.
abbrev holding : Machine
holding = record new_match {
  cards = record (new_match.cards) {
    classes = (lit "ann", attack) ∷ [];
    hands = (lit "ann", three_cards) ∷ [];
  };
}

pick_card-once_example :
    pick_card (lit "ann") cb2 6 none none (pick_card (lit "ann") cb2 5 none none holding).0
    ≡ ((pick_card (lit "ann") cb2 5 none none holding).0, err (room_error card_not_in_hand))
unfolding pick_card get card_beq
pick_card-once_example = pick_card-once (lit "ann") cb2 5 none none holding refl 6 none none

pick_offer-Dealt_example :
    let pool = available_pool holding.cards attack (lit "ann") in
    ((length pool < 3)
      × (pick_offer (lit "ann") 1 (lit "seed") holding ≡ (holding, err wrong_offer_size)))
    ⊎ Dealt
        (lit "ann")
        (IsFresh holding (lit "ann") attack)
        pool
        (pick_offer (lit "ann") 1 (lit "seed") holding)
unfolding get
pick_offer-Dealt_example = pick_offer-Dealt (lit "ann") 1 (lit "seed") attack holding refl
