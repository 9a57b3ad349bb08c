-- ===== src/Match/Snapshot.antt =====
-- packages/game-core/src/match-state-machine.ts: `getSnapshot`, what a client gets that joins again.
use the_arena_of.Prelude.{ℕ, List, [], ◌∷◌, Option, none, some, map}
use the_arena_of.Prelude.Dict.{Dict}
use the_arena_of.Text.{Str}
use the_arena_of.Rules.TopicVoting.{tally_topic_votes}
use the_arena_of.Match.State.{MatchStatus, PlayerInfo, QuestionState, RoundState, Machine}
use the_arena_of.Match.Topics.{votes_of}

pub record Snapshot : Type 0 where
  pub match_id : Str
  pub status : MatchStatus
  pub current_round_no : ℕ
  pub players : List PlayerInfo
  pub current_question : Option QuestionState
  pub round_end_time : Option ℕ
  pub last_event_seq_no : ℕ
  pub candidate_topics : Option (List Str)
  pub vote_counts : Option (Dict Str ℕ)
  pub phase_ends_at : Option ℕ
  pub banned_topics : Option (List Str)
  pub active_topics : Option (List Str)

-- No counts without candidates.
abbrev pub counts_for : Option (List Str) → Dict Str Str → Option (Dict Str ℕ)
counts_for none votes = none
counts_for (some []) votes = none
counts_for (some (t ∷ ts)) votes = some (tally_topic_votes votes (t ∷ ts))

abbrev pub question_of : Option RoundState → Option QuestionState
question_of none = none
question_of (some r) = some r.question

abbrev pub end_of : Option RoundState → Option ℕ
end_of none = none
end_of (some r) = some r.ends_at

unfoldable pub get_snapshot : ℕ → Machine → Snapshot
get_snapshot last_seen m = record {
  match_id = m.state.id;
  status = m.state.status;
  current_round_no = m.state.current_round_no;
  players = map (λ (e : Str × PlayerInfo). e.1) m.state.players;
  current_question = question_of m.current_round;
  round_end_time = end_of m.current_round;
  last_event_seq_no = last_seen;
  candidate_topics = m.state.candidate_topics;
  vote_counts = counts_for m.state.candidate_topics (votes_of m);
  phase_ends_at = m.state.phase_ends_at;
  banned_topics = m.state.banned_topics;
  active_topics = m.state.active_topics;
}
