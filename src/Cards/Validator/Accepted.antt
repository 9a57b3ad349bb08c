-- ===== src/Cards/Validator/Accepted.antt =====
-- What holds of a command that apps/api/src/modules/match/card-validator.ts lets through.
use the_arena_of.Prelude.{◌<◌, ◌≡◌, true, false, some, includes, list_eq, nat_eq}
use the_arena_of.Cards.Defs.{CardId, card_text, card_eq, CardEffectTemplate, CardDefinition}
use the_arena_of.Match.State.{MatchStatus, round_active, status_eq, RoundStatus}
use the_arena_of.Cards.Catalog.{card_catalog}
use the_arena_of.Cards.Validator.{is_aoe_card, CardCommand}
use the_arena_of.Cards.Validator.Passed.{Targeted, In}

-- The command that was accepted, with the definition of its card.
pub record Accepted (c : CardCommand) (card : CardId) (template : CardEffectTemplate) : Type 0 where
  pub definition : CardDefinition
  pub named : c.card_id ≡ some (card_text card)
  pub of_card : (definition.id ≡ card) × (definition.effect_template ≡ template)
  pub listed : In definition card_catalog
  pub in_match : (s : MatchStatus) → c.match_status ≡ some s → s ≡ round_active
  pub in_round : (s : RoundStatus) → c.round_status ≡ some s → s ≡ RoundStatus.active
  pub picked : includes c.picked_cards card ≡ true
  pub offered : includes c.offered_card_ids card ≡ true
  pub unplayed : includes c.played_card_ids card ≡ false
  pub targeted : Targeted definition c.target_player_id c.roster_player_ids c.acting_player_id
  pub in_budget : is_aoe_card definition ≡ true → c.current_aoe_count < 2
