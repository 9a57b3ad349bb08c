-- ===== src/Tests.antt =====
-- Runs of the code at the inputs of its own tests.
mod Matches
mod Ballots
mod Offers
mod Memory
mod Stored
mod Timers
mod Leases
use the_arena_of.Prelude.{◌≡◌, refl, List, [], ◌∷◌}
use the_arena_of.Text.{lit}
use the_arena_of.Prng.Sha256.{seed_from_string}
use the_arena_of.Prng.{mulberry32, derive_substream}
use the_arena_of.Errors.{Result, ok, err}
use the_arena_of.Cards.Defs.{
  CardId, attack, defense, cb2, cb4, cb7, tn1, tn2, tn3, tn4, tn5, tn6, tn7, tn8, tn9, tn10,
}
use the_arena_of.Cards.Catalog.{get_class_pool, get_card_definition}
use the_arena_of.Cards.Engine.{sample_offer, select_tier}

-- packages/game-core/src/prng.spec.ts.
seed_two_byte : seed_from_string (233 ∷ []) ≡ 2119539018
unfolding seed_from_string
seed_two_byte = refl

seed_pair : seed_from_string (0xd834 ∷ 0xdd1e ∷ []) ≡ 3555662308
unfolding seed_from_string
seed_pair = refl

seed_lone_surrogate : seed_from_string (0xd800 ∷ []) ≡ 3427063171
unfolding seed_from_string
seed_lone_surrogate = refl

-- The pools are in the canonical order, TN-10 behind TN-9.
defense_pool :
    get_class_pool defense ≡ tn1 ∷ tn2 ∷ tn3 ∷ tn4 ∷ tn5 ∷ tn6 ∷ tn7 ∷ tn8 ∷ tn9 ∷ tn10 ∷ []
unfolding get_class_pool
defense_pool = refl

abbrev offer : Result (List CardId)
offer = elim (sample_offer attack (lit "match-1|ATTACK-player-1") (get_class_pool attack)) [
  | ok r ↦ ok r.cards
  | err e ↦ err e
]

-- VECTOR_ATTACK_CLASS_HAPPY of packages/shared/src/cards.sampling-vectors.ts.
attack_vector : offer ≡ ok (cb4 ∷ cb2 ∷ cb7 ∷ [])
unfolding sample_offer get_class_pool derive_substream mulberry32 get_card_definition select_tier
attack_vector = refl
