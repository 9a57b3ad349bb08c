-- ===== src/Match/Codec/Decode.antt =====
-- packages/game-core/src/match-state.codec.ts: how a stored match is checked and read.
use the_arena_of.Prelude.{
  ℕ, suc, ◌+◌, ◌-◌, Bool, true, false, not, ◌&&◌, List, [], ◌∷◌, ◌++◌, Option, none, some,
  if◌then◌else◌, ltb, nat_beq, ◌==◌, list_eq, nat_eq, includes, map,
}
use the_arena_of.Prelude.Dict.{Dict, set}
use the_arena_of.Text.{Str, lit, decimal}
use the_arena_of.Errors.{
  before_epoch, Result, ok, err, unreadable, ◌>>=◌, missing_phase_end, no_round_times,
  end_precedes_start, phase_end_mismatch,
}
use the_arena_of.Match.State.{
  MatchStatus, countdown, round_active, round_result, status_eq, MatchState, AnswerState,
  StartingPlayers, listed, unavailable, RoundState, Event,
}
use the_arena_of.Match.Phase.{round_duration_ms, countdown_duration_ms, result_display_ms}
use the_arena_of.Match.Codec.{Value, number, texts, SerializedEvent, Json}
use the_arena_of.Match.Codec.Shape.{
  Version, is_v2, Timing, validate_timing_field, moment, ShapedAnswer, ShapedRound, Parsed,
  parse_match, Timings, v2, unset, nil, at,
}

abbrev pub round_timing : (ShapedRound → Value) → Option ShapedRound → Result Timing
round_timing field none = ok unset
round_timing field (some r) = validate_timing_field (field r) true

abbrev pub has_phase_end : Version → Timing → Bool
has_phase_end v2 unset = false
has_phase_end v phase = true

abbrev pub require_phase_end : Version → Timings → Result Timings
require_phase_end v t =
    if has_phase_end v t.phase_ends_at then ok t else err (unreadable missing_phase_end)

unfoldable pub validate_match_timing : Parsed → Result Timings
validate_match_timing p = validate_timing_field p.state.started_at true >>= (λ started.
    validate_timing_field p.state.phase_ends_at true >>= (λ phase.
      validate_timing_field p.state.round_result_started_at true >>= (λ result.
        round_timing (λ r. r.started_at) p.current_round >>= (λ round_started.
          round_timing (λ r. r.ends_at) p.current_round >>= (λ round_ends.
            require_phase_end p.version (record {
              started_at = started;
              phase_ends_at = phase;
              round_result_started_at = result;
              current_round_started_at = round_started;
              current_round_ends_at = round_ends;
            }))))))

abbrev pub later_by : ℕ → Option ℕ → Option ℕ
later_by d none = none
later_by d (some t) = some (t + d)

-- `a ?? b` on two optional times.
abbrev pub or_time : Option ℕ → Option ℕ → Option ℕ
or_time none b = b
or_time (some a) b = some a

-- A first version's deadline, by its phase.
abbrev pub backfill_phase_ends_at : MatchStatus → Timing → Timing → Timing → Option ℕ → Option ℕ
backfill_phase_ends_at round_active started ends round_started result =
    or_time (moment ends) (later_by round_duration_ms (moment round_started))
backfill_phase_ends_at countdown started ends round_started result =
    later_by countdown_duration_ms (moment started)
backfill_phase_ends_at round_result started ends round_started result =
    later_by result_display_ms result
backfill_phase_ends_at status started ends round_started result = none

abbrev pub stored_phase_end : Timing → Option ℕ → Option ℕ
stored_phase_end unset backfill = backfill
stored_phase_end nil backfill = none
stored_phase_end (at n) backfill = some n

-- A JavaScript `Map` of pairs.
abbrev pub map_of {ℓ} : {V : Type ℓ} → Dict Str V → List (Str × V) → Dict Str V
map_of m [] = m
map_of m (entry ∷ entries) = map_of (set m entry.0 entry.1) entries

abbrev pub result_start : MatchStatus → Timings → Option ℕ
result_start status t = if status == round_result then moment t.round_result_started_at else none

abbrev pub phase_end_of : Version → MatchStatus → Timings → Option ℕ
phase_end_of v status t =
    if is_v2 v && status == round_result
    then later_by result_display_ms (result_start status t)
    else stored_phase_end t.phase_ends_at (
        backfill_phase_ends_at status t.started_at t.current_round_ends_at
          t.current_round_started_at (result_start status t))

unfoldable pub decode_match_state : Parsed → Timings → MatchState
decode_match_state p t =
    let s = p.state in
    record {
      id = s.id;
      room_id = s.room_id;
      status = s.status;
      current_round_no = s.current_round_no;
      total_rounds = s.total_rounds;
      players = map_of [] p.players;
      surviving_player_ids = s.surviving_player_ids;
      eliminated_player_ids = s.eliminated_player_ids;
      winner_id = s.winner_id;
      started_at = moment t.started_at;
      ended_at = s.ended_at;
      phase_ends_at = phase_end_of p.version s.status t;
      round_result_started_at = result_start s.status t;
      candidate_topics = s.candidate_topics;
      topic_votes = s.topic_votes;
      banned_topics = s.banned_topics;
      active_topics = s.active_topics;
    }

-- A submission of the first version may have no id.
abbrev pub decode_answer : Str × ShapedAnswer → Str × AnswerState
decode_answer entry =
    let a = entry.1 in
    (
      entry.0,
      record {
        player_id = a.player_id;
        answer = a.answer;
        submission_id = elim a.submission_id [
          | none ↦ lit "legacy-" ++ (entry.0 ++ (lit "-" ++ decimal a.submitted_at))
          | some id ↦ id
        ];
        is_correct = some a.is_correct;
        response_time_ms = a.response_time_ms;
        submitted_at = a.submitted_at;
      },
    )

-- `new Set(ids).size !== ids.length`.
abbrev pub has_duplicate : List Str → Bool
has_duplicate [] = false
has_duplicate (id ∷ ids) = if includes ids id then true else has_duplicate ids

abbrev pub deserialize_starting_players : Value → StartingPlayers
deserialize_starting_players (texts ids) = if has_duplicate ids then unavailable else listed ids
deserialize_starting_players v = unavailable

-- The end of the round as the phase tells it.
abbrev pub ends_by_phase : MatchStatus → Option ℕ → Option ℕ
ends_by_phase status phase = if status == round_active then phase else none

abbrev pub earlier_by : ℕ → Option ℕ → Option ℕ
earlier_by d none = none
earlier_by d (some t) = some (t - d)

-- The end of a round: stored, or the phase's in an active round, or the start and the duration.
abbrev pub round_end : MatchState → Timings → Option ℕ
round_end s t = or_time (moment t.current_round_ends_at) (
    or_time (ends_by_phase s.status s.phase_ends_at)
      (later_by round_duration_ms (moment t.current_round_started_at)))

-- The start: stored, or the end less the duration.
abbrev pub round_start : MatchState → Timings → Option ℕ
round_start s t =
    or_time (moment t.current_round_started_at) (earlier_by round_duration_ms (round_end s t))

-- Without a start, an end within the first 15 s behind the epoch leads to a negative one.
abbrev pub starts_before_epoch : MatchState → Timings → Bool
starts_before_epoch s t = elim (moment t.current_round_started_at) [
  | none ↦ elim (round_end s t) [ none ↦ false | some ends ↦ ltb ends round_duration_ms ]
  | some started ↦ false
]

abbrev pub timing_is : Timing → ℕ → Bool
timing_is (at n) ends = nat_beq n ends
timing_is t ends = false

abbrev pub validate_round_timing :
    Version → MatchState → Timings → Option ℕ → Option ℕ → Result (ℕ × ℕ)
validate_round_timing v s t none ends = err (unreadable no_round_times)
validate_round_timing v s t (some started) none = err (unreadable no_round_times)
validate_round_timing v s t (some started) (some ends) =
    if ltb ends started
    then err (unreadable end_precedes_start)
    else if is_v2 v && s.status == round_active && not (timing_is t.phase_ends_at ends)
    then err (unreadable phase_end_mismatch)
    else ok (started, ends)

abbrev pub decode_round : ShapedRound → ℕ × ℕ → RoundState
decode_round r times = record {
  match_id = r.match_id;
  round_no = r.round_no;
  question = r.question;
  started_at = times.0;
  ends_at = times.1;
  answers = map_of [] (map decode_answer r.answers);
  status = r.status;
  starting_players = deserialize_starting_players r.starting_players;
  correct_answer = none;
}

unfoldable pub decode_current_round :
    Option ShapedRound → Version → MatchState → Timings → Result (Option RoundState)
decode_current_round none v s t = ok none
decode_current_round (some r) v s t =
    if starts_before_epoch s t
    then err before_epoch
    else validate_round_timing v s t (round_start s t) (round_end s t)
      >>= (λ times. ok (some (decode_round r times)))

abbrev pub sequence_number : Value → ℕ → ℕ
sequence_number (number n) next = n
sequence_number v next = next

-- An event without a number gets its place in the log, from 1; `next` is the place of the first.
unfoldable pub backfill_event_sequence : ℕ → List SerializedEvent → List Event
backfill_event_sequence next [] = []
backfill_event_sequence next (e ∷ es) =
    record { payload = e.payload; timestamp = e.timestamp; seq_no = sequence_number e.seq_no next }
    ∷ backfill_event_sequence (suc next) es

pub record DecodedMatch : Type 0 where
  pub state : MatchState
  pub current_round : Option RoundState
  pub event_log : List Event

abbrev pub decode_parsed : Parsed → Timings → Result DecodedMatch
decode_parsed p t =
    let state = decode_match_state p t in
    decode_current_round p.current_round p.version state t >>= (λ round. ok (record {
      state = state;
      current_round = round;
      event_log = backfill_event_sequence 1 p.event_log;
    }))

unfoldable pub deserialize_match {ℓ} : {T : Type ℓ} → Json T → T → Result DecodedMatch
deserialize_match json blob =
    parse_match (json.parse blob) >>= (λ p. validate_match_timing p >>= (λ t. decode_parsed p t))
