-- ===== src/Tests/Matches.antt =====
-- A match of two players, and the theorems on the match at its states.
use the_arena_of.Prelude.{
  ◌≡◌, refl, true, false, List, [], ◌∷◌, ◌++◌, ◌*◌, ◌+◌, none, some, ◌⊎◌, length, drop, map,
  includes, list_eq, nat_eq,
}
use the_arena_of.Prelude.Dict.{get, set}
use the_arena_of.Text.{Str, lit, Locale}
use the_arena_of.Errors.{ok, err, room_error, already_answered, invalid_transition}
use the_arena_of.Rules.Elimination.{is_answer_match, is_right, eliminations_for_round}
use the_arena_of.Match.State.{
  finished, Host, Machine, PlayerInfo, PlayerStatus, AnswerState, RoundState, countdown,
  round_active, status_eq, status_beq,
}
use the_arena_of.Match.Log.{log_event, new_machine, get_delta, to_wire}
use the_arena_of.Match.Phase.{transition, can_transition, enter, valid_transitions}
use the_arena_of.Match.Phase.Anchors.{IsAnchored, Entered, transition-Anchored}
use the_arena_of.Match.Round.{Question, submit_answer, start_round, new_round}
use the_arena_of.Match.Evaluate.{evaluate_round}
use the_arena_of.Match.Evaluate.Outcomes.{evaluate_round-players}
use the_arena_of.Match.Winner.{reconnect_player, disconnect_player, finish_match, determine_winner}
use the_arena_of.Match.Winner.Crown.{IsBest, Crowned, contenders, finish_match-IsBest}
use the_arena_of.Rules.Scoring.{compute_round_score, floor_total}
use the_arena_of.Match.Rehydrate.{restore, rehydrate_card_state}
use the_arena_of.Match.Run.{
  Command, transits, starts_round, submits, evaluates, finishes, step, run,
}
use the_arena_of.Match.Run.Legal.{Moves, step-Moves, run-finished}
use the_arena_of.Match.Run.Anchored.{run_new-IsAnchored}
use the_arena_of.Match.Winner.Presence.{reconnect_player-disconnect_player}
use the_arena_of.Match.Synced.{Numbered}
use the_arena_of.Match.Synced.Runs.{run_new-Synced, restore-run, get_delta-drop}
use the_arena_of.Match.Round.Answers.{Returned, submit_answer-Returned, answer_once}

abbrev pub locale : Locale
locale = record { trim = λ s. s; to_lower = λ s. s; to_upper = λ s. s }

-- A clock that moves by a second at each call.
abbrev pub host : Host
host = record { clock = λ n. 1000 * n; locale = locale }

abbrev pub other_host : Host
other_host = record { clock = λ n. 500000 + n; locale = locale }

abbrev pub player : Str → PlayerInfo
player id = record {
  id = id;
  name = id;
  status = PlayerStatus.active;
  score = 0;
  total_response_time_ms = 0;
  correct_answers = 0;
  is_online = true;
}

abbrev pub players : List PlayerInfo
players = player (lit "ann") ∷ player (lit "bob") ∷ []

abbrev pub question : Question
question = record {
  id = lit "q";
  content = lit "?";
  options = lit "one" ∷ lit "two" ∷ [];
  correct_answer = lit "one";
  difficulty = none;
}

abbrev pub start : List Command
start = transits countdown ∷ transits round_active ∷ starts_round question none ∷ []

abbrev pub new_match : Machine
new_match = new_machine host (lit "m") (lit "r") players

abbrev pub playing : Machine
playing = run start new_match

abbrev pub whole : List Command
whole = start ++ submits (lit "ann") (lit "one") 5000 none ∷ evaluates ∷ finishes ∷ []

restore-run_example :
    restore other_host
      (run whole new_match).state
      (run whole new_match).current_round
      (run whole new_match).event_log
    ≡ record (run whole new_match) { host = other_host; reads = 0; eliminated_frozen = false }
unfolding submit_answer run step transition enter can_transition status_beq start_round log_event
    new_machine set is_answer_match get is_right eliminations_for_round evaluate_round finish_match
    determine_winner
restore-run_example =
    restore-run host other_host (lit "m") (lit "r") players whole
      (tt, (tt, (tt, (tt, (tt, (tt, tt))))))

run_new-Synced_example :
    Numbered 0 (run whole new_match).event_log
    × ((run whole new_match).event_seq ≡ length (run whole new_match).event_log)
    × ((run whole new_match).cards ≡ rehydrate_card_state (run whole new_match).event_log)
unfolding submit_answer run step transition enter can_transition status_beq start_round log_event
    new_machine set is_answer_match get is_right eliminations_for_round evaluate_round finish_match
    determine_winner
run_new-Synced_example =
    run_new-Synced host (lit "m") (lit "r") players whole (tt, (tt, (tt, (tt, (tt, (tt, tt))))))

get_delta-drop_example :
    get_delta (run whole new_match) 2
    ≡ map (to_wire (run whole new_match).state.id) (drop 2 (run whole new_match).event_log)
get_delta-drop_example = get_delta-drop host (lit "m") (lit "r") players whole 2

-- The first answer, and the machine that has it.
abbrev first_answer : AnswerState
first_answer = record {
  player_id = lit "ann";
  answer = lit "one";
  submission_id = lit "s1";
  is_correct = some true;
  response_time_ms = 1500;
  submitted_at = 5500;
}

abbrev answered : Machine
answered = (submit_answer (lit "ann") (lit "one") 5500 (some (lit "s1")) playing).0

answer_once_example :
    submit_answer (lit "ann") (lit "two") 6000 (some (lit "s2")) answered
    ≡ (answered, err (room_error already_answered))
unfolding submit_answer run step transition enter can_transition status_beq start_round log_event
    new_machine get is_answer_match
answer_once_example =
    answer_once (lit "ann") (lit "one") 5500 (some (lit "s1")) playing first_answer refl refl
      (lit "two") 6000 (some (lit "s2"))

submit_answer-Returned_example :
    Returned
      (lit "ann")
      (lit "one")
      5500
      (some (lit "s1"))
      playing
      (submit_answer (lit "ann") (lit "one") 5500 (some (lit "s1")) playing)
submit_answer-Returned_example =
    submit_answer-Returned (lit "ann") (lit "one") 5500 (some (lit "s1")) playing

-- The round that is played.
abbrev round : RoundState
round = record (new_round new_match question 4000 19000) {
  answers = (lit "ann", first_answer) ∷ [];
}

evaluate_round-players_example :
    get (evaluate_round answered).0.state.players (lit "ann")
    ≡ some (record (player (lit "ann")) {
      correct_answers = 1;
      total_response_time_ms = 1500;
      score = floor_total (compute_round_score 1500);
    })
unfolding submit_answer run step transition enter can_transition status_beq start_round log_event
    new_machine set is_answer_match get is_right compute_round_score
evaluate_round-players_example =
    evaluate_round-players answered round refl (refl, (refl, tt)) (lit "ann") (player (lit "ann"))
      refl

abbrev evaluated : Machine
evaluated = (evaluate_round answered).0

finish_match-IsBest_example :
    IsBest evaluated.state.players (contenders evaluated) (lit "ann")
    × Crowned evaluated (lit "ann") (finish_match evaluated)
unfolding submit_answer run step transition enter can_transition status_beq start_round log_event
    new_machine set is_answer_match get is_right eliminations_for_round evaluate_round finish_match
    determine_winner
finish_match-IsBest_example = finish_match-IsBest evaluated (lit "ann") refl

transition-Anchored_example :
    ((includes (valid_transitions new_match.state.status) countdown ≡ true)
      × ((transition countdown new_match).1 ≡ ok tt)
      × ((transition countdown new_match).0.state.status ≡ countdown)
      × IsAnchored (transition countdown new_match).0
      × Entered countdown new_match
          (transition countdown new_match).0.state
          (transition countdown new_match).0.current_round)
    ⊎ ((includes (valid_transitions new_match.state.status) countdown ≡ false)
        × (transition countdown new_match ≡ (new_match, err invalid_transition)))
transition-Anchored_example = transition-Anchored countdown new_match

step-Moves_example : Moves new_match (step (transits countdown) new_match)
step-Moves_example = step-Moves (transits countdown) new_match

run_new-IsAnchored_example : IsAnchored (run whole new_match)
run_new-IsAnchored_example = run_new-IsAnchored host (lit "m") (lit "r") players whole

-- A match that a transition has ended.
abbrev ended : Machine
ended = (transition finished (transition countdown new_match).0).0

run-finished_example : (run whole ended).state.status ≡ finished
unfolding transition enter can_transition status_beq log_event new_machine
run-finished_example = run-finished whole ended refl

reconnect_player-disconnect_player_example :
    get
      (reconnect_player (lit "ann") (disconnect_player (lit "ann") answered)).state.players
      (lit "ann")
    ≡ some (player (lit "ann"))
unfolding submit_answer run step transition enter can_transition status_beq start_round log_event
    new_machine get is_answer_match
reconnect_player-disconnect_player_example =
    reconnect_player-disconnect_player (lit "ann") answered (player (lit "ann")) refl
