-- ===== src/Match/Codec/Fields.antt =====
-- The parts of a stored match written and read again (packages/game-core/src/match-state.codec.ts).
use the_arena_of.Prelude.{
  ℕ, suc, ◌≤◌, ◌≡◌, refl, sym, ap, ◌∙◌, Bool, true, false, List, [], ◌∷◌, Option, none, some,
  if◌then◌else◌, ◌==◌, list_eq, nat_eq, map, All, Distinct, list_beq_iff,
}
use the_arena_of.Text.{Str}
use the_arena_of.Errors.{ok}
use the_arena_of.Match.State.{
  MatchStatus, created, topic_voting, countdown, round_active, round_evaluating, round_result,
  finished, status_eq, status_beq, MatchState, AnswerState, StartingPlayers, listed, unavailable,
  missing, RoundState, Event,
}
use the_arena_of.Match.Phase.{result_display_ms}
use the_arena_of.Match.Phase.Anchors.{Anchored}
use the_arena_of.Match.Codec.Maps.{Keyed, map_of-Keyed}
use the_arena_of.Match.Codec.{
  nullable, serialize_answer, serialize_event, serialize_starting_players, serialize_state,
}
use the_arena_of.Match.Codec.Decode.{
  decode_answer, has_duplicate, deserialize_starting_players, backfill_event_sequence,
  decode_match_state, result_start, phase_end_of, stored_phase_end, later_by, has_phase_end,
}
use the_arena_of.Match.Codec.Shape.{
  v2, Timing, nil, at, validate_timing_field, moment, ShapedAnswer, ShapedRound, shape_answers,
  Parsed, Timings,
}

-- What is stored of the answers: each under its player, with its verdict.
abbrev pub Judged : Str × AnswerState → Type 0
Judged e = (e.0 ≡ e.1.player_id) × ((b : Bool) × (e.1.is_correct ≡ some b))

pub shape_answers-serialize :
    (answers : List (Str × AnswerState))
    → All Judged answers
    → (shaped : List (Str × ShapedAnswer)) × (shape_answers v2 (map serialize_answer answers)
        ≡ some shaped)
      × (map decode_answer shaped ≡ answers)
shape_answers-serialize [] h = ([], refl, refl)
shape_answers-serialize ((k, a) ∷ answers) h =
    let rest = shape_answers-serialize answers h.1 in
    let verdict = h.0.1 in
    (
      (
        k,
        record {
          player_id = a.player_id;
          answer = a.answer;
          submission_id = some a.submission_id;
          is_correct = verdict.0;
          response_time_ms = a.response_time_ms;
          submitted_at = a.submitted_at;
        },
      )
          ∷ rest.0,
      rw (verdict.1, rest.1, same) refl,
      rw (rest.2, sym verdict.1) refl,
    )
  where
    same : (k == a.player_id) ≡ true
    same = (list_beq_iff k a.player_id).1 h.0.0

-- Events keep their numbers.
pub backfill-serialize :
    (n : ℕ) (log : List Event) → backfill_event_sequence n (map serialize_event log) ≡ log
unfolding backfill_event_sequence
backfill-serialize n [] = refl
backfill-serialize n (e ∷ log) = ap (e ∷◌) (backfill-serialize (suc n) log)

has_duplicate-Distinct : (ids : List Str) → Distinct ids → has_duplicate ids ≡ false
has_duplicate-Distinct [] h = refl
has_duplicate-Distinct (id ∷ ids) h = rw (h.0) (has_duplicate-Distinct ids h.1)

-- The list of a round's starters is stored where it has no doubles; no list is stored as unavailable.
abbrev pub settle : StartingPlayers → StartingPlayers
settle (listed ids) = listed ids
settle unavailable = unavailable
settle missing = unavailable

abbrev pub Starters : StartingPlayers → Type 0
Starters (listed ids) = Distinct ids
Starters players = Unit

pub starting_players-serialize :
    (p : StartingPlayers)
    → Starters p
    → deserialize_starting_players (serialize_starting_players p) ≡ settle p
starting_players-serialize (listed ids) h = rw (has_duplicate-Distinct ids h) refl
starting_players-serialize unavailable h = refl
starting_players-serialize missing h = refl

abbrev pub timing_of : Option ℕ → Timing
timing_of none = nil
timing_of (some t) = at t

pub validate-nullable : (o : Option ℕ) → validate_timing_field (nullable o) true ≡ ok (timing_of o)
validate-nullable none = refl
validate-nullable (some t) = refl

moment-timing_of : (o : Option ℕ) → moment (timing_of o) ≡ o
moment-timing_of none = refl
moment-timing_of (some t) = refl

result_start-Anchored :
    (status : MatchStatus) (start ends : Option ℕ)
    → Anchored status start ends
    → (if status == round_result then moment (timing_of start) else none) ≡ start
unfolding status_beq
result_start-Anchored created start ends h = sym h
result_start-Anchored topic_voting start ends h = sym h
result_start-Anchored countdown start ends h = sym h
result_start-Anchored round_active start ends h = sym h
result_start-Anchored round_evaluating start ends h = sym h.0
result_start-Anchored round_result start ends h = moment-timing_of start
result_start-Anchored finished start ends h = sym h.0

stored-timing_of : (o backfill : Option ℕ) → stored_phase_end (timing_of o) backfill ≡ o
stored-timing_of none b = refl
stored-timing_of (some t) b = refl

phase_end-Anchored :
    (status : MatchStatus) (start ends backfill read : Option ℕ)
    → Anchored status start ends
    → read ≡ start
    → (if status == round_result
        then later_by result_display_ms read
        else stored_phase_end (timing_of ends) backfill)
      ≡ ends
unfolding status_beq
phase_end-Anchored created start ends b read h e = stored-timing_of ends b
phase_end-Anchored topic_voting start ends b read h e = stored-timing_of ends b
phase_end-Anchored countdown start ends b read h e = stored-timing_of ends b
phase_end-Anchored round_active start ends b read h e = stored-timing_of ends b
phase_end-Anchored round_evaluating start ends b read h e = stored-timing_of ends b
phase_end-Anchored round_result start ends b read h e =
    ap (later_by result_display_ms) (e ∙ h.1) ∙ sym h.2
phase_end-Anchored finished start ends b read h e = stored-timing_of ends b

-- The times of a state as they are read.
abbrev pub timings : MatchState → Timing → Timing → Timings
timings s started ends = record {
  started_at = timing_of s.started_at;
  phase_ends_at = timing_of s.phase_ends_at;
  round_result_started_at = timing_of s.round_result_started_at;
  current_round_started_at = started;
  current_round_ends_at = ends;
}

abbrev pub parsed : MatchState → Option ShapedRound → List Event → Parsed
parsed s round log = record {
  version = v2;
  state = serialize_state s;
  players = s.players;
  current_round = round;
  event_log = map serialize_event log;
}

pub decode_match_state-serialize :
    (s : MatchState) (round : Option ShapedRound) (log : List Event) (started ends : Timing)
    → Keyed s.players
    → Anchored s.status s.round_result_started_at s.phase_ends_at
    → decode_match_state (parsed s round log) (timings s started ends) ≡ s
unfolding decode_match_state
decode_match_state-serialize s round log started ends keyed h = λ i. record {
  id = s.id;
  room_id = s.room_id;
  status = s.status;
  current_round_no = s.current_round_no;
  total_rounds = s.total_rounds;
  players = map_of-Keyed s.players keyed i;
  surviving_player_ids = s.surviving_player_ids;
  eliminated_player_ids = s.eliminated_player_ids;
  winner_id = s.winner_id;
  started_at = moment-timing_of s.started_at i;
  ended_at = s.ended_at;
  phase_ends_at = phase i;
  round_result_started_at = result i;
  candidate_topics = s.candidate_topics;
  topic_votes = s.topic_votes;
  banned_topics = s.banned_topics;
  active_topics = s.active_topics;
}
  where
    result : result_start s.status (timings s started ends) ≡ s.round_result_started_at
    result = result_start-Anchored s.status s.round_result_started_at s.phase_ends_at h

    phase : phase_end_of v2 s.status (timings s started ends) ≡ s.phase_ends_at
    phase =
        phase_end-Anchored s.status s.round_result_started_at s.phase_ends_at _
          (result_start s.status (timings s started ends)) h result

pub has_phase_end-timing_of : (o : Option ℕ) → has_phase_end v2 (timing_of o) ≡ true
has_phase_end-timing_of none = refl
has_phase_end-timing_of (some t) = refl

-- The round as it comes back: without the answer key.
abbrev pub hide : RoundState → RoundState
hide r = record r { correct_answer = none; starting_players = settle r.starting_players }

abbrev pub hide_round : Option RoundState → Option RoundState
hide_round none = none
hide_round (some r) = some (hide r)

-- A round that can be read back: its answers are judged and under distinct players, it does not end before
-- it starts, its starters are distinct, and in the active phase its end is the phase's.
abbrev pub RoundStorable : MatchState → RoundState → Type 0
RoundStorable s r =
    Keyed r.answers
    × All Judged r.answers
    × (r.started_at ≤ r.ends_at)
    × Starters r.starting_players
    × (s.status ≡ round_active → s.phase_ends_at ≡ some r.ends_at)

abbrev pub Storable : MatchState → Option RoundState → Type 0
Storable s none = Keyed s.players × Anchored s.status s.round_result_started_at s.phase_ends_at
Storable s (some r) =
    Keyed s.players
    × Anchored s.status s.round_result_started_at s.phase_ends_at
    × RoundStorable s r
