-- ===== src/Match/Phase.antt =====
-- packages/game-core/src/match-state-machine.ts: the states of a match and the transitions.
pub mod Anchors
use the_arena_of.Prelude.{ℕ, ◌+◌, Bool, List, [], ◌∷◌, none, some, if◌then◌else◌, includes}
use the_arena_of.Errors.{Result, ok, err, invalid_transition}
use the_arena_of.Match.State.{
  MatchStatus, created, topic_voting, countdown, round_active, round_evaluating, round_result,
  finished, status_eq, status_beq, state_transition, Machine,
}
use the_arena_of.Match.Log.{now, tick, log_event}

abbrev pub valid_transitions : MatchStatus → List MatchStatus
valid_transitions created = countdown ∷ topic_voting ∷ []
valid_transitions topic_voting = countdown ∷ finished ∷ []
valid_transitions countdown = round_active ∷ finished ∷ []
valid_transitions round_active = round_evaluating ∷ finished ∷ []
valid_transitions round_evaluating = round_result ∷ finished ∷ []
valid_transitions round_result = round_active ∷ finished ∷ []
valid_transitions finished = []

-- packages/shared/src/game-config.ts.
abbrev pub round_duration_ms : ℕ
round_duration_ms = 15000

abbrev pub countdown_duration_ms : ℕ
countdown_duration_ms = 5000

abbrev pub result_display_ms : ℕ
result_display_ms = 3000

abbrev pub topic_voting_duration_ms : ℕ
topic_voting_duration_ms = 10000

unfoldable pub can_transition : MatchStatus → Machine → Bool
unfolding status_beq
can_transition to m = includes (valid_transitions m.state.status) to

-- A phase with a start, which reads the clock once for the start and once for the end.
begin_phase : ℕ → Machine → Machine
begin_phase duration m = record (tick (tick m)) {
  state = record (m.state) {
    started_at = some (now m);
    phase_ends_at = some (now (tick m) + duration);
    round_result_started_at = none;
  };
}

-- The `switch` of `transition`.
unfoldable pub enter : MatchStatus → Machine → Machine
unfolding begin_phase
enter topic_voting m = begin_phase topic_voting_duration_ms m
enter countdown m = begin_phase countdown_duration_ms m
enter round_result m = record (tick m) {
  state = record (m.state) {
    round_result_started_at = some (now m);
    phase_ends_at = some (now m + result_display_ms);
  };
}
enter finished m = record (tick m) {
  state = record (m.state) {
    ended_at = some (now m);
    phase_ends_at = none;
    round_result_started_at = none;
  };
}
enter round_evaluating m = record m {
  state = record (m.state) { phase_ends_at = none; round_result_started_at = none };
}
enter round_active m = record m {
  state = record (m.state) { phase_ends_at = none; round_result_started_at = none };
  current_round = none;
}
enter created m = m

abbrev pub set_status : MatchStatus → Machine → Machine
set_status to m = record m { state = record (m.state) { status = to } }

unfoldable pub transition : MatchStatus → Machine → Machine × Result (Unit {0})
unfolding can_transition enter
transition to m =
    if can_transition to m
    then (enter to (set_status to (log_event (state_transition m.state.status to) m)), ok tt)
    else (m, err invalid_transition)
