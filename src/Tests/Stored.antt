-- ===== src/Tests/Stored.antt =====
-- The theorems on stored matches, placements and card commands at concrete inputs.
use the_arena_of.Prelude.{
  false, ℕ, ◌≡◌, ◌≢◌, refl, List, [], ◌∷◌, Perm, map, if◌then◌else◌, includes, none, some, list_eq,
  nat_eq,
}
use the_arena_of.Text.{Str, lit, str_lt, str_lt-IsOrder}
use the_arena_of.Errors.{ok}
use the_arena_of.Cards.Defs.{cb1, cb2, tn1, card_eq}
use the_arena_of.Cards.Validator.{CardCommand}
use the_arena_of.Cards.Validator.Accepted.{Accepted}
use the_arena_of.Rules.Placements.{Contender, assign_placements}
use the_arena_of.Rules.Placements.Ranking.{Placed, assign_placements-Ranked}
use the_arena_of.Match.State.{RoundStatus, round_active, round_result, status_eq, status_beq}
use the_arena_of.Match.Rehydrate.{restore}
use the_arena_of.Match.Phase.{transition, can_transition, enter}
use the_arena_of.Match.Log.{log_event, new_machine}
use the_arena_of.Prelude.Dict.{Dict, get, set}
use the_arena_of.Rules.TopicVoting.{tally_topic_votes}
use the_arena_of.Rules.TopicVoting.Tally.{vote_count, tally_topic_votes-get}
use the_arena_of.Match.Snapshot.{get_snapshot}
use the_arena_of.Match.Codec.Handover.{get_snapshot-restore}
use the_arena_of.Match.Codec.Shape.{validate_current_round_shape}
use the_arena_of.Match.Run.{run, step}
use the_arena_of.Match.Round.{start_round}
use the_arena_of.Match.Codec.{Json, SerializedMatch, serialize_match}
use the_arena_of.Match.Codec.Decode.{
  DecodedMatch, deserialize_match, validate_match_timing, decode_match_state, decode_current_round,
  backfill_event_sequence,
}
use the_arena_of.Match.Codec.Trip.{IsJson}
use the_arena_of.Match.Codec.Fields.{hide_round}
use the_arena_of.Match.Codec.Recovery.{restore-stored}
use the_arena_of.Match.Codec.Kept.{IsStorable}
use the_arena_of.Match.Codec.Storability.{run_new-IsStorable}
use the_arena_of.Match.Codec.Sound.{deserialize_match_sound, RoundSound}
use the_arena_of.Tests.Matches.{host, other_host, players, start, playing}

-- The texts are the values themselves.
abbrev json : Json SerializedMatch
json = record { stringify = λ m. m; parse = λ m. some m }

json-IsJson : IsJson json
json-IsJson = record { parse-stringify = λ m. refl }

restore-stored_example :
    (d : DecodedMatch) × (deserialize_match json
        (serialize_match json playing.state playing.current_round playing.event_log)
      ≡ ok d)
    × (restore other_host d.state d.current_round d.event_log ≡ record playing {
      host = other_host;
      reads = 0;
      eliminated_frozen = false;
      current_round = hide_round playing.current_round;
    })
unfolding run step start_round transition can_transition enter log_event new_machine status_beq
restore-stored_example =
    restore-stored json json-IsJson host other_host (lit "m") (lit "r") players start
      (refl, (refl, tt)) (tt, (tt, (tt, tt)))

abbrev read_match : DecodedMatch
read_match = record {
  state = playing.state;
  current_round = hide_round playing.current_round;
  event_log = playing.event_log;
}

deserialize_match_sound_example :
    (read_match.state.status ≢ round_result → read_match.state.round_result_started_at ≡ none)
    × RoundSound read_match.current_round
unfolding run step start_round transition can_transition enter log_event new_machine status_beq set
    deserialize_match serialize_match validate_current_round_shape validate_match_timing
    decode_match_state decode_current_round backfill_event_sequence
deserialize_match_sound_example =
    deserialize_match_sound json
      (serialize_match json playing.state playing.current_round playing.event_log) read_match refl

abbrev contender : Str → ℕ → ℕ → Contender
contender id score rounds = record {
  user_id = id;
  score = score;
  avg_response_ms = some 900;
  survived_rounds = some rounds;
  eliminated_in_round = none;
  is_winner = none;
}

abbrev contenders : List Contender
contenders =
    contender (lit "ann") 300 4 ∷ contender (lit "bob") 200 7 ∷ contender (lit "cat") 500 4 ∷ []

assign_placements-Ranked_example :
    Perm
      (map (λ (e : Contender × ℕ). e.0) (assign_placements str_lt contenders (some (lit "ann"))))
      contenders
    × Placed
        (some (lit "ann"))
        contenders
        1
        (assign_placements str_lt contenders (some (lit "ann")))
assign_placements-Ranked_example =
    assign_placements-Ranked str_lt str_lt-IsOrder contenders (some (lit "ann"))

abbrev time_freeze : CardCommand
time_freeze = record {
  card_id = some (lit "CB-1");
  offered_card_ids = cb2 ∷ cb1 ∷ [];
  target_player_id = some (lit "bob");
  roster_player_ids = lit "ann" ∷ lit "bob" ∷ [];
  current_aoe_count = 2;
  played_card_ids = tn1 ∷ [];
  picked_cards = cb1 ∷ [];
  acting_player_id = some (lit "ann");
  match_status = some round_active;
  round_status = some RoundStatus.active;
}

run_new-IsStorable_example : IsStorable playing
run_new-IsStorable_example =
    run_new-IsStorable host (lit "m") (lit "r") players start (refl, (refl, tt))

get_snapshot-restore_example :
    (d : DecodedMatch) × (deserialize_match json
        (serialize_match json playing.state playing.current_round playing.event_log)
      ≡ ok d)
    × (get_snapshot 2 (restore other_host d.state d.current_round d.event_log)
        ≡ get_snapshot 2 playing)
get_snapshot-restore_example =
    get_snapshot-restore json json-IsJson host other_host (lit "m") (lit "r") players start 2
      (refl, (refl, tt))

abbrev ballots : Dict Str Str
ballots = (lit "ann", lit "LOGIC") ∷ (lit "bob", lit "LOGIC") ∷ (lit "cyd", lit "CHESS") ∷ []

tally_topic_votes-get_example :
    get (tally_topic_votes ballots (lit "SPORTS" ∷ lit "LOGIC" ∷ [])) (lit "LOGIC") ≡ (
      if includes (lit "SPORTS" ∷ lit "LOGIC" ∷ []) (lit "LOGIC")
      then some (vote_count ballots (lit "LOGIC"))
      else none)
tally_topic_votes-get_example =
    tally_topic_votes-get ballots (lit "SPORTS" ∷ lit "LOGIC" ∷ []) (lit "LOGIC")
