-- ===== src/Match/Round.antt =====
-- packages/game-core/src/match-state-machine.ts: `startRound` and `submitAnswer`.
pub mod Answers
use the_arena_of.Prelude.{
  ℕ, suc, ◌+◌, ◌-◌, Bool, true, false, not, ◌&&◌, List, [], ◌++◌, Option, none, some, if◌then◌else◌,
  ltb, max, includes, ◌==◌, list_eq, nat_eq,
}
use the_arena_of.Prelude.Dict.{get, set, discard, or_else}
use the_arena_of.Errors.{
  Result, ok, err, ErrorCode, room_error, not_in_active_round, round_not_active, already_answered,
  answer_submission_closed, player_not_in_room,
}
use the_arena_of.Text.{Str, lit, decimal, is_empty}
use the_arena_of.Rules.Elimination.{is_answer_match}
use the_arena_of.Match.State.{
  round_active, status_eq, status_beq, PlayerInfo, PlayerStatus, Difficulty, medium, QuestionState,
  AnswerState, RoundStatus, RoundState, listed, round_started, answer_submitted,
  second_chance_consumed, Machine,
}
use the_arena_of.Match.Log.{now, tick, log_event}
use the_arena_of.Match.Phase.{round_duration_ms}

-- The question that `startRound` is given, with its key.
pub record Question : Type 0 where
  pub id : Str
  pub content : Str
  pub options : List Str
  pub correct_answer : Str
  pub difficulty : Option Difficulty

-- The question without its answer.
abbrev pub client_question : Question → QuestionState
client_question q = record {
  id = q.id;
  content = q.content;
  options = q.options;
  difficulty = some (or_else q.difficulty medium);
}

-- The round that begins: `started` is the clock's answer.
abbrev pub new_round : Machine → Question → ℕ → ℕ → RoundState
new_round m q started ends = record {
  match_id = m.state.id;
  round_no = suc m.state.current_round_no;
  question = client_question q;
  started_at = started;
  ends_at = ends;
  answers = [];
  status = RoundStatus.active;
  starting_players = listed m.state.surviving_player_ids;
  correct_answer = some q.correct_answer;
}

unfoldable pub start_round : Question → Option ℕ → Machine → Machine × Result RoundState
unfolding status_beq
start_round q duration m =
    let ends = now m + or_else duration round_duration_ms in
    let round = new_round m q (now m) ends in
    let round_no = suc m.state.current_round_no in
    if m.state.status == round_active
    then (
      log_event (round_started round_no (client_question q) ends) (record (tick m) {
        state = record (m.state) {
          current_round_no = round_no;
          total_rounds = max m.state.total_rounds round_no;
          phase_ends_at = some ends;
          round_result_started_at = none;
        };
        cards = record (m.cards) { second_chance = [] };
        current_round = some round;
      }),
      ok round,
    )
    else (m, err not_in_active_round)

abbrev pub is_active : PlayerStatus → Bool
is_active PlayerStatus.active = true
is_active _ = false

abbrev is_open : RoundStatus → Bool
is_open RoundStatus.active = true
is_open _ = false

abbrev pub player_active : Option PlayerInfo → Bool
player_active none = false
player_active (some p) = is_active p.status

-- `submissionId && existing.submissionId === submissionId`.
abbrev pub resubmits : AnswerState → Option Str → Bool
resubmits a none = false
resubmits a (some id) = not (is_empty id) && a.submission_id == id

abbrev pub legacy_id : Str → ℕ → Str
legacy_id player_id timestamp = lit "legacy-" ++ (player_id ++ (lit "-" ++ decimal timestamp))

-- The record of an answer; the response time is clamped at 0 by the subtraction.
abbrev pub answer_record : Machine → RoundState → Str → Str → ℕ → Option Str → AnswerState
answer_record m round player_id answer timestamp submission_id = record {
  player_id = player_id;
  answer = answer;
  submission_id = or_else submission_id (legacy_id player_id timestamp);
  is_correct =
      some
        (is_answer_match m.host.locale (some answer) round.correct_answer round.question.options);
  response_time_ms = timestamp - round.started_at;
  submitted_at = timestamp;
}

-- A second chance is used up, and the use logged.
unfoldable pub consume_chance : RoundState → Str → Machine → Machine
consume_chance round player_id m =
    log_event (second_chance_consumed player_id round.round_no) (record m {
      cards = record (m.cards) { second_chance = discard m.cards.second_chance player_id };
    })

-- The answer is stored and logged.
unfoldable pub record_answer : RoundState → AnswerState → Machine → Machine
record_answer round a m =
    log_event (answer_submitted a.player_id (or_else a.is_correct false) a.response_time_ms)
      (record m {
        current_round = some (record round { answers = set round.answers a.player_id a });
      })

-- The guards behind the check for an earlier answer, in the source's order.
unfoldable pub refusal : RoundState → Str → ℕ → Machine → Option ErrorCode
refusal round player_id timestamp m =
    if not (is_open round.status)
    then some round_not_active
    else if ltb round.ends_at timestamp
    then some answer_submission_closed
    else if not (player_active (get m.state.players player_id))
    then some player_not_in_room
    else none

abbrev pub use_chance : Bool → RoundState → Str → Machine → Machine
use_chance true round player_id m = consume_chance round player_id m
use_chance false round player_id m = m

-- The answer behind those guards; `retry` is a second chance.
unfoldable pub accept_answer :
    RoundState → Bool → Str → Str → ℕ → Option Str → Machine → Machine × Result AnswerState
accept_answer round retry player_id answer timestamp submission_id m =
    let a = answer_record m round player_id answer timestamp submission_id in
    elim (refusal round player_id timestamp m) [
      | some e ↦ (m, err (room_error e))
      | none ↦ (record_answer round a (use_chance retry round player_id m), ok a)
    ]

unfoldable pub submit_in :
    RoundState
    → Option AnswerState
    → Str
    → Str
    → ℕ
    → Option Str
    → Machine
    → Machine × Result AnswerState
submit_in round none player_id answer timestamp submission_id m =
    accept_answer round false player_id answer timestamp submission_id m
submit_in round (some a) player_id answer timestamp submission_id m =
    if resubmits a submission_id
    then (m, ok a)
    else if includes m.cards.second_chance player_id
    then accept_answer round true player_id answer timestamp submission_id m
    else (m, err (room_error already_answered))

unfoldable pub submit_answer : Str → Str → ℕ → Option Str → Machine → Machine × Result AnswerState
unfolding submit_in accept_answer refusal consume_chance record_answer
submit_answer player_id answer timestamp submission_id m = elim m.current_round [
  | none ↦ (m, err (room_error round_not_active))
  | some round ↦
      submit_in round (get round.answers player_id) player_id answer timestamp submission_id m
]
