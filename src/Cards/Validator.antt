-- ===== src/Cards/Validator.antt =====
-- apps/api/src/modules/match/card-validator.ts: the checks of a command that plays a card, before the card
-- is resolved.
pub mod Passed
pub mod Accepted
use the_arena_of.Prelude.{
  ℕ, Bool, true, false, not, ◌&&◌, ◌||◌, List, [], ◌∷◌, Option, none, some, if◌then◌else◌, ltb, leb,
  nat_beq, length, includes, ◌==◌, list_eq, nat_eq,
}
use the_arena_of.Prelude.Dict.{is_some}
use the_arena_of.Errors.{
  Result, ok, err, ErrorCode, room_error, invalid_command_id, card_not_found, card_not_in_hand,
  invalid_payload, player_not_in_room, aoe_cap_exhausted, round_not_active, ◌>>=◌,
}
use the_arena_of.Text.{Str, is_empty}
use the_arena_of.Cards.Defs.{
  ClassId, attack, defense, CardId, card_text, card_eq, CardEffectTemplate, timer_modify,
  delay_render, CardDefinition,
}
use the_arena_of.Cards.Catalog.{card_catalog, get_card_definition}
use the_arena_of.Match.State.{MatchStatus, round_active, status_eq, RoundStatus}

abbrev pub aoe_cap_per_round : ℕ
aoe_cap_per_round = 2

abbrev pub command_id_max_length : ℕ
command_id_max_length = 64

-- `if (!test) throw new RoomError(code)`.
abbrev pub ensure : Bool → ErrorCode → Result (Unit {0})
ensure true code = ok tt
ensure false code = err (room_error code)

-- An `unknown` argument that is no string is `none`.
abbrev pub assert_valid_command_id : Option Str → Result (Unit {0})
assert_valid_command_id none = err (room_error invalid_command_id)
assert_valid_command_id (some id) =
    ensure (not (ltb (length id) 1 || ltb command_id_max_length (length id))) invalid_command_id

-- The definition in the catalog under that text.
abbrev pub find_by_text : Str → List CardDefinition → Option CardDefinition
find_by_text id [] = none
find_by_text id (d ∷ ds) = if card_text d.id == id then some d else find_by_text id ds

abbrev pub defined : Option CardDefinition → Result CardDefinition
defined none = err (room_error card_not_found)
defined (some d) = ok d

unfoldable pub assert_card_id : Option Str → Result CardDefinition
assert_card_id none = err (room_error card_not_found)
assert_card_id (some id) = defined (find_by_text id card_catalog)

abbrev pub target_count : CardEffectTemplate → ℕ
target_count (timer_modify delta count) = count
target_count (delay_render delay count) = count
target_count template = 0

abbrev pub is_aoe_card : CardDefinition → Bool
is_aoe_card d = ltb 1 (target_count d.effect_template)

abbrev pub is_attack_card : CardDefinition → Bool
is_attack_card d = elim d.class_id [ attack ↦ true | defense ↦ false ]

-- A string that is there and not empty.
abbrev pub given : Option Str → Bool
given none = false
given (some id) = not (is_empty id)

abbrev pub same_player : Option Str → Option Str → Bool
same_player (some a) (some b) = a == b
same_player a b = false

abbrev pub in_roster : Option Str → List Str → Bool
in_roster none roster = false
in_roster (some id) roster = includes roster id

abbrev pub validate_attack_target :
    CardDefinition → Option Str → List Str → Option Str → Result (Unit {0})
validate_attack_target d target roster acting =
    ensure (is_aoe_card d || given target) invalid_payload >>= (λ _.
      ensure (not (given target && given acting && same_player target acting)) invalid_payload
      >>= (λ _. ensure (not (given target) || in_roster target roster) player_not_in_room))

abbrev pub validate_target : CardDefinition → Option Str → List Str → Option Str → Result (Unit {0})
validate_target d target roster acting =
    if is_attack_card d
    then validate_attack_target d target roster acting
    else ensure (not (is_some target)) invalid_payload

abbrev pub validate_picked_card : CardId → List CardId → Result (Unit {0})
validate_picked_card card picked = ensure (includes picked card) card_not_in_hand

abbrev pub validate_offer_correlation : CardId → List CardId → Result (Unit {0})
validate_offer_correlation card offered = ensure (includes offered card) card_not_in_hand

abbrev pub is_card_already_played : CardId → List CardId → Bool
is_card_already_played card played = includes played card

abbrev pub validate_aoe_budget : CardDefinition → ℕ → Result (Unit {0})
validate_aoe_budget d count =
    ensure (not (is_aoe_card d && leb aoe_cap_per_round count)) aoe_cap_exhausted

pub record CardCommand : Type 0 where
  pub card_id : Option Str
  pub offered_card_ids : List CardId
  pub target_player_id : Option Str
  pub roster_player_ids : List Str
  pub current_aoe_count : ℕ
  pub played_card_ids : List CardId
  pub picked_cards : List CardId
  pub acting_player_id : Option Str
  pub match_status : Option MatchStatus
  pub round_status : Option RoundStatus

abbrev pub is_playing : Option MatchStatus → Bool
is_playing none = true
is_playing (some status) = status == round_active

abbrev pub is_open : Option RoundStatus → Bool
is_open none = true
is_open (some status) = elim status [ RoundStatus.active ↦ true | _ ↦ false ]

unfoldable pub validate_card_command : CardCommand → Result (CardId × CardEffectTemplate)
validate_card_command c = ensure (is_playing c.match_status) round_not_active >>= (λ _.
    ensure (is_open c.round_status) round_not_active >>= (λ _. assert_card_id c.card_id >>= (λ d.
      validate_picked_card d.id c.picked_cards >>= (λ _.
        validate_offer_correlation d.id c.offered_card_ids >>= (λ _.
          ensure (not (is_card_already_played d.id c.played_card_ids)) card_not_in_hand >>= (λ _.
            validate_target d c.target_player_id c.roster_player_ids c.acting_player_id >>= (λ _.
              validate_aoe_budget d c.current_aoe_count
              >>= (λ _. ok (d.id, d.effect_template)))))))))

abbrev pub is_milestone_round : ℕ → Bool
is_milestone_round n = nat_beq n 5 || nat_beq n 12 || nat_beq n 20
