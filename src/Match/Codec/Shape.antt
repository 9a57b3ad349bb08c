-- ===== src/Match/Codec/Shape.antt =====
-- packages/game-core/src/match-state.codec.ts: the checks of a stored match's shape.
use the_arena_of.Prelude.{
  ℕ, Bool, true, false, List, [], ◌∷◌, Option, none, some, if◌then◌else◌, nat_beq, ◌==◌, list_eq,
  nat_eq,
}
use the_arena_of.Text.{Str}
use the_arena_of.Errors.{
  Result, ok, err, unreadable, ◌>>=◌, not_json, unsupported_version, invalid_match_data,
  invalid_timing_field,
}
use the_arena_of.Match.State.{status_eq, PlayerInfo, QuestionState, RoundStatus}
use the_arena_of.Match.Codec.{
  Value, absent, null, boolean, number, text, texts, SerializedAnswer, SerializedQuestion,
  SerializedRound, SerializedState, SerializedEvent, SerializedMatch,
}

pub data Version : Type 0 where
  v1 v2 : Version

abbrev pub is_v2 : Version → Bool
is_v2 v1 = false
is_v2 v2 = true

abbrev pub supported_version : Value → Result Version
supported_version (number n) =
    if nat_beq n 1
    then ok v1
    else if nat_beq n 2
    then ok v2
    else err (unreadable unsupported_version)
supported_version v = err (unreadable unsupported_version)

-- A checked time: not stored, `null`, or a number.
pub data Timing : Type 0 where
  unset : Timing
  nil : Timing
  at : ℕ → Timing

abbrev pub validate_timing_field : Value → Bool → Result Timing
validate_timing_field absent allow_null = ok unset
validate_timing_field null allow_null =
    if allow_null then ok nil else err (unreadable invalid_timing_field)
validate_timing_field (number n) allow_null = ok (at n)
validate_timing_field v allow_null = err (unreadable invalid_timing_field)

abbrev pub moment : Timing → Option ℕ
moment (at n) = some n
moment t = none

-- An answer and a round whose shape has been checked.
pub record ShapedAnswer : Type 0 where
  pub player_id : Str
  pub answer : Str
  pub submission_id : Option Str
  pub is_correct : Bool
  pub response_time_ms : ℕ
  pub submitted_at : ℕ

pub record ShapedRound : Type 0 where
  pub match_id : Str
  pub round_no : ℕ
  pub question : QuestionState
  pub started_at : Value
  pub ends_at : Value
  pub answers : List (Str × ShapedAnswer)
  pub status : RoundStatus
  pub starting_players : Value

abbrev pub shape_submission : Version → Value → Option (Option Str)
shape_submission v (text s) = some (some s)
shape_submission v1 absent = some none
shape_submission v _ = none

abbrev pub shape_fields :
    Str → Value → Value → Value → Value → Value → Option (Option Str) → Option (Str × ShapedAnswer)
shape_fields id (text player) (text answer) (boolean correct) (number spent) (number at_time)
      (some submission) =
    if id == player
    then some (
      id,
      record {
        player_id = player;
        answer = answer;
        submission_id = submission;
        is_correct = correct;
        response_time_ms = spent;
        submitted_at = at_time;
      },
    )
    else none
shape_fields id player answer correct spent at_time submission = none

abbrev pub shape_answer :
    Version → Option (Value × Option SerializedAnswer) → Option (Str × ShapedAnswer)
shape_answer v (some (text id, some a)) =
    shape_fields id a.player_id a.answer a.is_correct a.response_time_ms a.submitted_at
      (shape_submission v a.submission_id)
shape_answer v entry = none

abbrev pub shape_next :
    Option (Str × ShapedAnswer)
    → Option (List (Str × ShapedAnswer))
    → Option (List (Str × ShapedAnswer))
shape_next (some a) (some rest) = some (a ∷ rest)
shape_next first rest = none

abbrev pub shape_answers :
    Version → List (Option (Value × Option SerializedAnswer)) → Option (List (Str × ShapedAnswer))
shape_answers v [] = some []
shape_answers v (entry ∷ entries) = shape_next (shape_answer v entry) (shape_answers v entries)

abbrev pub shape_entries :
    Version
    → Option (List (Option (Value × Option SerializedAnswer)))
    → Option (List (Str × ShapedAnswer))
shape_entries v none = none
shape_entries v (some entries) = shape_answers v entries

abbrev pub shape_question : Option SerializedQuestion → Option QuestionState
shape_question none = none
shape_question (some q) = fields q.id q.content q.options
  where
    fields : Value → Value → Value → Option QuestionState
    fields (text id) (text content) (texts options) =
        some (record { id = id; content = content; options = options; difficulty = q.difficulty })
    fields id content options = none

abbrev pub is_key : Value → Bool
is_key absent = true
is_key (text s) = true
is_key v = false

abbrev pub shape_parts :
    SerializedRound
    → Value
    → Option QuestionState
    → Option RoundStatus
    → Option (List (Str × ShapedAnswer))
    → Option ShapedRound
shape_parts r (number round_no) (some question) (some status) (some answers) = some (record {
  match_id = r.match_id;
  round_no = round_no;
  question = question;
  started_at = r.started_at;
  ends_at = r.ends_at;
  answers = answers;
  status = status;
  starting_players = r.starting_players;
})
shape_parts r round_no question status answers = none

abbrev pub shaped : Option ShapedRound → Result (Option ShapedRound)
shaped none = err (unreadable invalid_match_data)
shaped (some r) = ok (some r)

-- `validateCurrentRoundShape`, with the round at its checked types.
unfoldable pub validate_current_round_shape :
    Version → Option SerializedRound → Result (Option ShapedRound)
validate_current_round_shape v none = ok none
validate_current_round_shape v (some r) = shaped (
    if is_key r.correct_answer
    then shape_parts r r.round_no (shape_question r.question) r.status (shape_entries v r.answers)
    else none)

-- `parseSerializedMatch`: what is left to read, the arrays present and the round shaped.
pub record Parsed : Type 0 where
  pub version : Version
  pub state : SerializedState
  pub players : List (Str × PlayerInfo)
  pub current_round : Option ShapedRound
  pub event_log : List SerializedEvent

abbrev pub parse_parts :
    Version
    → Option SerializedState
    → Option (List SerializedEvent)
    → Option SerializedRound
    → Result Parsed
parse_parts v none log round = err (unreadable invalid_match_data)
parse_parts v (some s) none round = err (unreadable invalid_match_data)
parse_parts v (some s) (some log) round = with_players s.players
  where
    with_players : Option (List (Str × PlayerInfo)) → Result Parsed
    with_players none = err (unreadable invalid_match_data)
    with_players (some players) = validate_current_round_shape v round >>= (λ r.
        ok (record {
          version = v;
          state = s;
          players = players;
          current_round = r;
          event_log = log;
        }))

abbrev pub parse_match : Option SerializedMatch → Result Parsed
parse_match none = err (unreadable not_json)
parse_match (some m) =
    supported_version m.version >>= (λ v. parse_parts v m.state m.event_log m.current_round)

pub record Timings : Type 0 where
  pub started_at : Timing
  pub phase_ends_at : Timing
  pub round_result_started_at : Timing
  pub current_round_started_at : Timing
  pub current_round_ends_at : Timing
