-- ===== src/Match/Evaluate.antt =====
-- packages/game-core/src/match-state-machine.ts: `evaluateRound`, and the attached answer key.
pub mod Players
pub mod Outcomes
use the_arena_of.Prelude.{
  suc, ◌+◌, not, List, [], ◌∷◌, ◌++◌, Option, none, some, if◌then◌else◌, keep_if, includes, length,
  list_eq, nat_eq,
}
use the_arena_of.Prelude.Dict.{Dict, get, modify}
use the_arena_of.Errors.{Result, ok, err, no_active_round, frozen_array}
use the_arena_of.Text.{Str}
use the_arena_of.Rules.Scoring.{compute_round_score, floor_total}
use the_arena_of.Rules.Elimination.{eliminations_for_round}
use the_arena_of.Match.State.{
  PlayerStatus, PlayerInfo, AnswerState, RoundStatus, StartingPlayers, listed, RoundState,
  round_evaluated, Machine,
}
use the_arena_of.Match.Log.{log_event}

-- Neither the symbol nor a missing list is an array.
abbrev pub starting_list : StartingPlayers → List Str → List Str
starting_list (listed ids) surviving = ids
starting_list _ surviving = surviving

abbrev pub eliminate : PlayerInfo → PlayerInfo
eliminate p = record p { status = PlayerStatus.eliminated }

-- What a right answer adds to its player.
abbrev pub reward : AnswerState → PlayerInfo → PlayerInfo
reward a p = record p {
  correct_answers = suc p.correct_answers;
  total_response_time_ms = p.total_response_time_ms + a.response_time_ms;
  score = p.score + floor_total (compute_round_score a.response_time_ms);
}

-- One turn of the loop. A player who is not eliminated has an answer.
unfoldable pub settle_player :
    RoundState → List Str → Str → Dict Str PlayerInfo → Dict Str PlayerInfo
settle_player round out player_id players =
    if includes out player_id
    then modify players player_id eliminate
    else elim (get round.answers player_id) [
      | none ↦ players
      | some a ↦ modify players player_id (reward a)
    ]

unfoldable pub settle_players :
    RoundState → List Str → List Str → Dict Str PlayerInfo → Dict Str PlayerInfo
unfolding settle_player
settle_players round out [] players = players
settle_players round out (id ∷ ids) players =
    settle_players round out ids (settle_player round out id players)

pub record Evaluation : Type 0 where
  pub surviving_ids : List Str
  pub eliminated_ids : List Str
  pub correct_answer : Option Str

-- The players are settled and the survivors are set before the eliminated players are pushed, which
-- throws when their array is frozen.
evaluate_in : RoundState → Machine → Machine × Result Evaluation
unfolding settle_players
evaluate_in round m =
    let starting = starting_list round.starting_players m.state.surviving_player_ids in
    let out = eliminations_for_round m.host.locale round starting in
    let alive = keep_if (λ id. not (includes out id)) starting in
    let settled = record (m.state) {
      players = settle_players round out starting m.state.players;
      surviving_player_ids = alive;
    } in
    if m.eliminated_frozen
    then (
      record m {
        state = settled;
        current_round = some (record round { status = RoundStatus.evaluating });
      },
      err frozen_array,
    )
    else (
      log_event
          (round_evaluated round.round_no round.correct_answer (length alive) (length out) out)
          (record m {
            state = record settled { eliminated_player_ids = m.state.eliminated_player_ids ++ out };
            current_round = some (record round { status = RoundStatus.completed });
          }),
      ok (record {
        surviving_ids = alive;
        eliminated_ids = out;
        correct_answer = round.correct_answer;
      }),
    )

unfoldable pub evaluate_round : Machine → Machine × Result Evaluation
unfolding evaluate_in
evaluate_round m = elim m.current_round [
  | none ↦ (m, err no_active_round)
  | some round ↦ evaluate_in round m
]

-- `attachCorrectAnswer`: only a round that is still ACTIVE takes the key.
unfoldable pub attach_to : RoundState → RoundStatus → Str → RoundState
attach_to round RoundStatus.active answer = record round { correct_answer = some answer }
attach_to round _ answer = round

unfoldable pub attach_correct_answer : Str → Machine → Machine
unfolding attach_to
attach_correct_answer answer m = elim m.current_round [
  | none ↦ m
  | some round ↦ record m { current_round = some (attach_to round round.status answer) }
]
