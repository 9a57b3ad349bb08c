-- ===== src/Match/Topics.antt =====
-- packages/game-core/src/match-state-machine.ts: the vote on the topics before a match.
pub mod Guards
pub mod Votes
pub mod Opening
use the_arena_of.Prelude.{
  ℕ, ◌+◌, Bool, true, false, not, List, [], ◌∷◌, Option, none, some, if◌then◌else◌, leb, includes,
  ◌==◌, list_eq, nat_eq,
}
use the_arena_of.Prelude.Dict.{Dict, get, set, or_else}
use the_arena_of.Errors.{
  Result, ok, err, ErrorCode, room_error, topic_voting_closed, player_not_in_room, invalid_topic,
}
use the_arena_of.Text.{Str}
use the_arena_of.Rules.TopicVoting.{
  TopicVotingResult, select_candidate_topics, candidate_pool, resolve_banned_topics,
}
use the_arena_of.Match.State.{
  topic_voting, status_eq, status_beq, topic_voting_started, topic_vote_submitted,
  topic_voting_finished, Machine,
}
use the_arena_of.Match.Log.{now, tick, log_event, truthy}
use the_arena_of.Match.Phase.{transition, topic_voting_duration_ms}
use the_arena_of.Match.Round.{player_active}

-- `candidateTopics && candidateTopics.length > 0 ? … : selectCandidateTopics(id)`.
abbrev pub chosen_topics : Machine → Option (List Str) → List Str
chosen_topics m none = select_candidate_topics m.state.id 6 candidate_pool
chosen_topics m (some []) = select_candidate_topics m.state.id 6 candidate_pool
chosen_topics m (some (t ∷ ts)) = t ∷ ts

-- The draft is reset before the transition is tried, and stays reset if it throws.
abbrev pub reset_draft : List Str → Machine → Machine
reset_draft topics m = record m {
  state = record (m.state) {
    candidate_topics = some topics;
    topic_votes = some [];
    banned_topics = some [];
    active_topics = some [];
  };
}

-- `startedAt ?? Date.now()`: the clock is read only where there is no start.
abbrev pub tick_unless : Option ℕ → Machine → Machine
tick_unless none m = tick m
tick_unless (some t) m = m

-- What follows the transition.
unfoldable pub open_voting : List Str → ℕ → Machine → Machine × Result (List Str)
open_voting topics duration m =
    let ends = or_else m.state.started_at (now m) + duration in
    let m' = tick_unless m.state.started_at m in
    (
      log_event (topic_voting_started m.state.id topics duration (some ends))
          (record m' { state = record (m'.state) { phase_ends_at = some ends } }),
      ok topics,
    )

unfoldable pub after_transition :
    List Str → ℕ → Machine × Result (Unit {0}) → Machine × Result (List Str)
unfolding open_voting
after_transition topics duration (m, ok _) = open_voting topics duration m
after_transition topics duration (m, err e) = (m, err e)

unfoldable pub init_topic_voting :
    Option (List Str) → Option ℕ → Machine → Machine × Result (List Str)
unfolding after_transition transition
init_topic_voting candidates duration m =
    let topics = chosen_topics m candidates in
    after_transition topics (or_else duration topic_voting_duration_ms)
      (transition topic_voting (reset_draft topics m))

-- `phaseEndsAt !== null && Date.now() >= phaseEndsAt`.
abbrev pub voting_over : Machine → Bool
voting_over m = elim m.state.phase_ends_at [ none ↦ false | some t ↦ leb t (now m) ]

-- The clock is read only in the voting phase, where there is a deadline.
unfoldable pub tick_at : Option ℕ → Machine → Machine
tick_at none m = m
tick_at (some t) m = tick m

unfoldable pub check_time : Machine → Machine
unfolding tick_at status_beq
check_time m = elim (m.state.status == topic_voting) [
  | true ↦ tick_at m.state.phase_ends_at m
  | false ↦ m
]

abbrev pub is_candidate : Option (List Str) → Str → Bool
is_candidate none topic = false
is_candidate (some topics) topic = includes topics topic

-- `previousVote === topic`.
abbrev pub voted_for : Option Str → Str → Bool
voted_for none topic = false
voted_for (some t) topic = t == topic

-- The guards of a vote, in the source's order.
unfoldable pub vote_refusal : Str → Str → Machine → Option ErrorCode
unfolding status_beq
vote_refusal player_id topic m =
    if not (m.state.status == topic_voting)
    then some topic_voting_closed
    else if voting_over m
    then some topic_voting_closed
    else if not (player_active (get m.state.players player_id))
    then some player_not_in_room
    else if not (is_candidate m.state.candidate_topics topic)
    then some invalid_topic
    else none

abbrev pub votes_of : Machine → Dict Str Str
votes_of m = or_else m.state.topic_votes []

-- The vote, once it is allowed: a repeated one changes nothing but a missing map.
unfoldable pub cast_vote : Str → Str → Option Str → Machine → Machine
cast_vote player_id topic event_id m = elim (voted_for (get (votes_of m) player_id) topic) [
  | true ↦ record m { state = record (m.state) { topic_votes = some (votes_of m) } }
  | false ↦
      log_event (topic_vote_submitted m.state.id player_id topic (truthy event_id)) (record m {
        state = record (m.state) { topic_votes = some (set (votes_of m) player_id topic) };
      })
]

unfoldable pub vote_ban_topic : Str → Str → Option Str → Machine → Machine × Result Bool
unfolding vote_refusal check_time cast_vote
vote_ban_topic player_id topic event_id m = elim (vote_refusal player_id topic m) [
  | some e ↦ (check_time m, err (room_error e))
  | none ↦ (cast_vote player_id topic event_id (check_time m), ok true)
]

unfoldable pub resolve_topic_voting : ℕ → Machine → Machine × TopicVotingResult
resolve_topic_voting banned_count m =
    let r =
      resolve_banned_topics (or_else m.state.candidate_topics []) (or_else m.state.topic_votes [])
        m.state.id banned_count in
    (
      log_event (topic_voting_finished m.state.id r.banned_topics r.active_topics r.vote_counts)
          (record m {
            state = record (m.state) {
              banned_topics = some r.banned_topics;
              active_topics = some r.active_topics;
            };
          }),
      r,
    )
