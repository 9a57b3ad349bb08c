-- ===== src/Match/Codec/Trip.antt =====
-- A match written and read again (packages/game-core/src/match-state.codec.ts).
use the_arena_of.Prelude.{
  ℕ, ◌≡◌, refl, ap, ◌∙◌, false, not, ◌&&◌, List, [], Option, none, some, nat_beq_iff, ◌==◌, list_eq,
  nat_eq, map, not_lt→ltb, Bool-cases, inl, inr,
}
use the_arena_of.Text.{Str}
use the_arena_of.Errors.{ok}
use the_arena_of.Match.State.{MatchStatus, round_active, status_eq, MatchState, RoundState, Event}
use the_arena_of.Match.Codec.Maps.{map_of-Keyed}
use the_arena_of.Match.Codec.{
  number, SerializedMatch, Json, serialize_match, serialize_starting_players,
}
use the_arena_of.Match.Codec.Decode.{
  decode_answer, map_of, deserialize_match, decode_current_round, validate_match_timing, timing_is,
}
use the_arena_of.Match.Codec.Shape.{
  v2, unset, at, ShapedAnswer, ShapedRound, validate_current_round_shape,
}
use the_arena_of.Match.Codec.Fields.{
  shape_answers-serialize, backfill-serialize, starting_players-serialize, timing_of,
  validate-nullable, timings, parsed, decode_match_state-serialize, has_phase_end-timing_of, hide,
  hide_round, RoundStorable, Storable,
}

-- The laws of JSON that the codec relies on.
pub record IsJson {ℓ} {T : Type ℓ} (json : Json T) : Type ℓ where
  pub parse-stringify : (m : SerializedMatch) → json.parse (json.stringify m) ≡ some m

validate_match_timing-none :
    (s : MatchState) (log : List Event)
    → validate_match_timing (parsed s none log) ≡ ok (timings s unset unset)
unfolding validate_match_timing
validate_match_timing-none s log =
    rw
      (
        validate-nullable s.started_at,
        validate-nullable s.phase_ends_at,
        validate-nullable s.round_result_started_at,
        has_phase_end-timing_of s.phase_ends_at,
      )
      refl

-- The round once its shape is checked.
abbrev shape_of : RoundState → List (Str × ShapedAnswer) → ShapedRound
shape_of r answers = record {
  match_id = r.match_id;
  round_no = r.round_no;
  question = r.question;
  started_at = number r.started_at;
  ends_at = number r.ends_at;
  answers = answers;
  status = r.status;
  starting_players = serialize_starting_players r.starting_players;
}

validate_match_timing-some :
    (s : MatchState) (r : RoundState) (answers : List (Str × ShapedAnswer)) (log : List Event)
    → validate_match_timing (parsed s (some (shape_of r answers)) log)
      ≡ ok (timings s (at r.started_at) (at r.ends_at))
unfolding validate_match_timing
validate_match_timing-some s r answers log =
    rw
      (
        validate-nullable s.started_at,
        validate-nullable s.phase_ends_at,
        validate-nullable s.round_result_started_at,
        has_phase_end-timing_of s.phase_ends_at,
      )
      refl

-- In the active phase the deadline is the round's end.
on_time :
    (status : MatchStatus) (phase : Option ℕ) (ends : ℕ)
    → (status ≡ round_active → phase ≡ some ends)
    → ((status == round_active) && not (timing_is (timing_of phase) ends)) ≡ false
on_time status phase ends h = elim (Bool-cases (status == round_active)) [
  | inr n ↦ rw n refl
  | inl y ↦
      rw (y, h ((status_eq.beq_iff status round_active).0 y), (nat_beq_iff ends ends).1 refl) refl
]

decode_current_round-serialize :
    (s : MatchState) (r : RoundState) (answers : List (Str × ShapedAnswer))
    → map decode_answer answers ≡ r.answers
    → RoundStorable s r
    → decode_current_round
        (some (shape_of r answers))
        v2
        s
        (timings s (at r.started_at) (at r.ends_at))
      ≡ ok (some (hide r))
unfolding decode_current_round
decode_current_round-serialize s r answers same h =
    rw (not_lt→ltb r.ends_at r.started_at h.2, on_time s.status s.phase_ends_at r.ends_at h.4)
      (ap (λ x. ok (some x))
        (λ i. record {
          match_id = r.match_id;
          round_no = r.round_no;
          question = r.question;
          started_at = r.started_at;
          ends_at = r.ends_at;
          answers = read_answers i;
          status = r.status;
          starting_players = starting_players-serialize r.starting_players h.3 i;
          correct_answer = none;
        }))
  where
    read_answers : map_of [] (map decode_answer answers) ≡ r.answers
    read_answers = ap (map_of []) same ∙ map_of-Keyed r.answers h.0

module _ {ℓ} {T : Type ℓ} (json : Json T) (laws : IsJson json) where
  -- A match that can be stored is read back as it was: the same state, the same log, and the same round
  -- but for its answer key, which is not stored.
  pub deserialize_match-serialize_match :
      (s : MatchState) (round : Option RoundState) (log : List Event)
      → Storable s round
      → deserialize_match json (serialize_match json s round log)
        ≡ ok (record { state = s; current_round = hide_round round; event_log = log })
  unfolding deserialize_match serialize_match validate_current_round_shape decode_current_round
  deserialize_match-serialize_match s none log h =
      rw
        (
          laws.parse-stringify _,
          validate_match_timing-none s log,
          decode_match_state-serialize s none log unset unset h.0 h.1,
          backfill-serialize 1 log,
        )
        refl
  deserialize_match-serialize_match s (some r) log h =
      let shaped = shape_answers-serialize r.answers h.2.1 in
      rw
        (
          laws.parse-stringify _,
          shaped.1,
          validate_match_timing-some s r shaped.0 log,
          decode_match_state-serialize s (some (shape_of r shaped.0)) log (at r.started_at)
              (at r.ends_at) h.0 h.1,
          decode_current_round-serialize s r shaped.0 shaped.2 h.2,
          backfill-serialize 1 log,
        )
        refl
