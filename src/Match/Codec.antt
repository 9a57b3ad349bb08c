-- ===== src/Match/Codec.antt =====
-- packages/game-core/src/match-state.codec.ts: the stored form of a match, and how it is written. The
-- fields that the reader checks are values of any kind; the others have the types that it takes on trust.
pub mod Shape
pub mod Decode
pub mod Fields
mod Maps
pub mod Trip
pub mod Sound
pub mod Kept
pub mod Storability
pub mod Recovery
pub mod Handover
use the_arena_of.Prelude.{ℕ, Bool, List, [], Option, none, some, map}
use the_arena_of.Prelude.Dict.{Dict}
use the_arena_of.Text.{Str, lit}
use the_arena_of.Match.State.{
  MatchStatus, PlayerInfo, MatchState, Difficulty, QuestionState, AnswerState, RoundStatus,
  StartingPlayers, listed, unavailable, missing, RoundState, Payload, Event,
}

-- What a key of parsed JSON holds: nothing, or a value. Numbers are
-- finite, a number that is not is `other`, and so is an array that holds anything but texts.
pub data Value : Type 0 where
  absent null other : Value
  boolean : Bool → Value
  number : ℕ → Value
  text : Str → Value
  texts : List Str → Value

pub record SerializedAnswer : Type 0 where
  pub player_id : Value
  pub answer : Value
  pub submission_id : Value
  pub is_correct : Value
  pub response_time_ms : Value
  pub submitted_at : Value

pub record SerializedQuestion : Type 0 where
  pub id : Value
  pub content : Value
  pub options : Value
  pub difficulty : Option Difficulty

-- `none` for an entry that is no pair, for an answer or a question that is no object, for a status
-- that is none of the four, and for a list that is no array.
pub record SerializedRound : Type 0 where
  pub match_id : Str
  pub round_no : Value
  pub question : Option SerializedQuestion
  pub started_at : Value
  pub ends_at : Value
  pub answers : Option (List (Option (Value × Option SerializedAnswer)))
  pub status : Option RoundStatus
  pub starting_players : Value
  pub correct_answer : Value

pub record SerializedState : Type 0 where
  pub id : Str
  pub room_id : Str
  pub status : MatchStatus
  pub current_round_no : ℕ
  pub total_rounds : ℕ
  pub players : Option (List (Str × PlayerInfo))
  pub surviving_player_ids : List Str
  pub eliminated_player_ids : List Str
  pub winner_id : Option Str
  pub started_at : Value
  pub ended_at : Option ℕ
  pub phase_ends_at : Value
  pub round_result_started_at : Value
  pub candidate_topics : Option (List Str)
  pub topic_votes : Option (Dict Str Str)
  pub banned_topics : Option (List Str)
  pub active_topics : Option (List Str)

pub record SerializedEvent : Type 0 where
  pub payload : Payload
  pub timestamp : ℕ
  pub seq_no : Value

pub record SerializedMatch : Type 0 where
  pub version : Value
  pub state : Option SerializedState
  pub current_round : Option SerializedRound
  pub event_log : Option (List SerializedEvent)

-- `JSON.stringify` and `JSON.parse` between such values and texts, which nothing here looks into; `none`
-- where `parse` throws.
pub record Json {ℓ} (T : Type ℓ) : Type ℓ where
  pub stringify : SerializedMatch → T
  pub parse : T → Option SerializedMatch

abbrev pub nullable : Option ℕ → Value
nullable none = null
nullable (some t) = number t

abbrev pub truth : Option Bool → Value
truth none = absent
truth (some b) = boolean b

abbrev pub sentinel : Str
sentinel = lit "__UNAVAILABLE__"

abbrev pub serialize_starting_players : StartingPlayers → Value
serialize_starting_players (listed ids) = texts ids
serialize_starting_players unavailable = text sentinel
serialize_starting_players missing = text sentinel

abbrev pub serialize_answer : Str × AnswerState → Option (Value × Option SerializedAnswer)
serialize_answer entry = some (
  text entry.0,
  some (record {
    player_id = text entry.1.player_id;
    answer = text entry.1.answer;
    submission_id = text entry.1.submission_id;
    is_correct = truth entry.1.is_correct;
    response_time_ms = number entry.1.response_time_ms;
    submitted_at = number entry.1.submitted_at;
  }),
)

abbrev pub serialize_question : QuestionState → SerializedQuestion
serialize_question q = record {
  id = text q.id;
  content = text q.content;
  options = texts q.options;
  difficulty = q.difficulty;
}

-- The answer key is left out.
abbrev pub serialize_round : RoundState → SerializedRound
serialize_round r = record {
  match_id = r.match_id;
  round_no = number r.round_no;
  question = some (serialize_question r.question);
  started_at = number r.started_at;
  ends_at = number r.ends_at;
  answers = some (map serialize_answer r.answers);
  status = some r.status;
  starting_players = serialize_starting_players r.starting_players;
  correct_answer = absent;
}

abbrev pub serialize_state : MatchState → SerializedState
serialize_state s = record {
  id = s.id;
  room_id = s.room_id;
  status = s.status;
  current_round_no = s.current_round_no;
  total_rounds = s.total_rounds;
  players = some s.players;
  surviving_player_ids = s.surviving_player_ids;
  eliminated_player_ids = s.eliminated_player_ids;
  winner_id = s.winner_id;
  started_at = nullable s.started_at;
  ended_at = s.ended_at;
  phase_ends_at = nullable s.phase_ends_at;
  round_result_started_at = nullable s.round_result_started_at;
  candidate_topics = s.candidate_topics;
  topic_votes = s.topic_votes;
  banned_topics = s.banned_topics;
  active_topics = s.active_topics;
}

abbrev pub serialize_event : Event → SerializedEvent
serialize_event e = record {
  payload = e.payload;
  timestamp = e.timestamp;
  seq_no = number e.seq_no;
}

abbrev pub round_data : Option RoundState → Option SerializedRound
round_data none = none
round_data (some r) = some (serialize_round r)

unfoldable pub serialize_match {ℓ} :
    {T : Type ℓ} → Json T → MatchState → Option RoundState → List Event → T
serialize_match json state round log = json.stringify (record {
  version = number 2;
  state = some (serialize_state state);
  current_round = round_data round;
  event_log = some (map serialize_event log);
})
