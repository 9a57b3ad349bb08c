-- ===== src/Match/State.antt =====
-- packages/shared/src/state.ts, and the fields of packages/game-core/src/match-state-machine.ts.
-- Times are milliseconds since the epoch; `null` and `undefined` are `none`.
use the_arena_of.Prelude.{
  Eq, ℕ, ◌≡◌, ◌↔◌, refl, sym, ap, ◌∙◌, Bool, true, List, [], Option, nat_beq, nat_beq_iff,
  if◌then◌else◌,
}
use the_arena_of.Prelude.Dict.{Dict}
use the_arena_of.Text.{Str, Locale}
use the_arena_of.Cards.Defs.{ClassId, CardId, CardEffect}

pub data MatchStatus : Type 0 where
  created topic_voting countdown round_active round_evaluating round_result finished : MatchStatus

status_index : MatchStatus → ℕ
status_index created = 0
status_index topic_voting = 1
status_index countdown = 2
status_index round_active = 3
status_index round_evaluating = 4
status_index round_result = 5
status_index finished = 6

status_of : ℕ → MatchStatus
status_of n =
    if nat_beq n 0
    then created
    else if nat_beq n 1
    then topic_voting
    else if nat_beq n 2
    then countdown
    else if nat_beq n 3
    then round_active
    else if nat_beq n 4
    then round_evaluating
    else if nat_beq n 5
    then round_result
    else finished

status_of-index : (s : MatchStatus) → status_of (status_index s) ≡ s
unfolding status_of status_index
status_of-index created = refl
status_of-index topic_voting = refl
status_of-index countdown = refl
status_of-index round_active = refl
status_of-index round_evaluating = refl
status_of-index round_result = refl
status_of-index finished = refl

unfoldable pub status_beq : MatchStatus → MatchStatus → Bool
unfolding status_index
status_beq a b = nat_beq (status_index a) (status_index b)

pub status_beq_iff : (a b : MatchStatus) → (status_beq a b ≡ true) ↔ (a ≡ b)
unfolding status_beq
status_beq_iff a b = (
  λ h. sym (status_of-index a) ∙ ap status_of ((nat_beq_iff _ _).0 h) ∙ status_of-index b,
  λ p. (nat_beq_iff _ _).1 (ap status_index p),
)

instance abbrev pub status_eq : Eq MatchStatus
status_eq = record { beq = status_beq; beq_iff = status_beq_iff }

pub data PlayerStatus : Type 0 where
  active eliminated disconnected winner : PlayerStatus

pub record PlayerInfo : Type 0 where
  pub id : Str
  pub name : Str
  pub status : PlayerStatus
  pub score : ℕ
  pub total_response_time_ms : ℕ
  pub correct_answers : ℕ
  pub is_online : Bool

pub record MatchState : Type 0 where
  pub id : Str
  pub room_id : Str
  pub status : MatchStatus
  pub current_round_no : ℕ
  pub total_rounds : ℕ
  pub players : Dict Str PlayerInfo
  pub surviving_player_ids : List Str
  pub eliminated_player_ids : List Str
  pub winner_id : Option Str
  pub started_at : Option ℕ
  pub ended_at : Option ℕ
  pub phase_ends_at : Option ℕ
  pub round_result_started_at : Option ℕ
  pub candidate_topics : Option (List Str)
  pub topic_votes : Option (Dict Str Str)
  pub banned_topics : Option (List Str)
  pub active_topics : Option (List Str)

pub data Difficulty : Type 0 where
  easy medium hard : Difficulty

pub record QuestionState : Type 0 where
  pub id : Str
  pub content : Str
  pub options : List Str
  pub difficulty : Option Difficulty

-- `isCorrect` is `none` where a decoded record does not hold a boolean.
pub record AnswerState : Type 0 where
  pub player_id : Str
  pub answer : Str
  pub submission_id : Str
  pub is_correct : Option Bool
  pub response_time_ms : ℕ
  pub submitted_at : ℕ

pub data RoundStatus : Type 0 where
  pending active evaluating completed : RoundStatus

-- `startingPlayers`: a list, the symbol UNAVAILABLE, or missing.
pub data StartingPlayers : Type 0 where
  listed : List Str → StartingPlayers
  unavailable missing : StartingPlayers

pub record RoundState : Type 0 where
  pub match_id : Str
  pub round_no : ℕ
  pub question : QuestionState
  pub started_at : ℕ
  pub ends_at : ℕ
  pub answers : Dict Str AnswerState
  pub status : RoundStatus
  pub starting_players : StartingPlayers
  pub correct_answer : Option Str

pub data Resolution : Type 0 where
  mutation temporary : Resolution

-- The payload of a CARD_RESOLVED event.
pub record ResolvedPayload : Type 0 where
  pub seq_no : ℕ
  pub match_id : Str
  pub round_no : ℕ
  pub target_round_no : ℕ
  pub card_id : CardId
  pub offer_seq_no : ℕ
  pub played_by : Str
  pub targets : List Str
  pub effect : CardEffect
  pub resolution : Resolution
  pub server_timestamp : ℕ
  pub expires_at_server : Option ℕ
  pub remaining_ms : Option ℕ
  pub event_id : Option Str
  pub command_id : Option Str

-- An event's type with its payload, a constructor for each string that `logEvent` is called with.
pub data Payload : Type 0 where
  state_transition : MatchStatus → MatchStatus → Payload
  round_started : ℕ → QuestionState → ℕ → Payload
  answer_submitted : Str → Bool → ℕ → Payload
  second_chance_consumed : Str → ℕ → Payload
  second_chance_granted : Str → ℕ → Payload
  round_evaluated : ℕ → Option Str → ℕ → ℕ → List Str → Payload
  tie_break : Option Str → List Str → Payload
  match_finished : Option Str → ℕ → Payload
  player_disconnected : Str → Payload
  player_reconnected : Str → Payload
  topic_voting_started : Str → List Str → ℕ → Option ℕ → Payload
  topic_vote_submitted : Str → Str → Str → Option Str → Payload
  topic_voting_finished : Str → List Str → List Str → Dict Str ℕ → Payload
  class_assigned : Str → Dict Str ClassId → Str → Payload
  card_offer : ℕ → Str → List CardId → Str → Payload
  card_picked : ℕ → Str → CardId → ℕ → Option Str → Option Str → Payload
  card_resolved : ResolvedPayload → Payload

pub record Event : Type 0 where
  pub payload : Payload
  pub timestamp : ℕ
  pub seq_no : ℕ

pub record ActiveEffect : Type 0 where
  pub source_seq_no : ℕ
  pub effect : CardEffect
  pub expires_at_server : ℕ
  pub persisted_duration_ms : ℕ

-- The class and card state that the machine keeps beside the log.
pub record CardState : Type 0 where
  pub classes : Dict Str ClassId
  pub hands : Dict Str (List CardId)
  pub effects : Dict Str (List ActiveEffect)
  pub played : Dict Str (List CardId)
  pub picked : Dict Str (List CardId)
  pub aoe_count : Dict ℕ ℕ
  pub second_chance : List Str

-- What the host gives: the answers of `Date.now()` in the order of the calls, and the text functions.
pub record Host : Type 0 where
  pub clock : ℕ → ℕ
  pub locale : Locale

pub record Machine : Type 0 where
  pub host : Host
  pub reads : ℕ
  pub state : MatchState
  pub current_round : Option RoundState
  pub eliminated_frozen : Bool
  pub event_log : List Event
  pub event_seq : ℕ
  pub cards : CardState

abbrev pub empty_cards : CardState
empty_cards = record {
  classes = [];
  hands = [];
  effects = [];
  played = [];
  picked = [];
  aoe_count = [];
  second_chance = [];
}
