-- ===== src/Match/Topics/Opening.antt =====
-- What the opening of the vote does, `initTopicVoting` of packages/game-core/src/match-state-machine.ts.
use the_arena_of.Prelude.{ℕ, suc, ◌+◌, ◌≡◌, List, [], some, list_eq, nat_eq}
use the_arena_of.Text.{Str}
use the_arena_of.Errors.{Result, ok, err, invalid_transition}
use the_arena_of.Match.State.{topic_voting, status_eq, MatchState, Machine}

-- A draft with nothing voted and nothing decided.
abbrev pub Fresh : MatchState → List Str → Type 0
Fresh s topics =
    (s.candidate_topics ≡ some topics)
    × (s.topic_votes ≡ some [])
    × (s.banned_topics ≡ some [])
    × (s.active_topics ≡ some [])

-- A call that opened the vote, on those topics and for that time.
abbrev pub Begun : Machine → List Str → ℕ → Machine × Result (List Str) → Type 0
Begun m offered duration p =
    (p.1 ≡ ok offered)
    × (p.0.state.status ≡ topic_voting)
    × (p.0.state.phase_ends_at ≡ some (m.host.clock (suc m.reads) + duration))

-- A call that threw, and what it left as it was.
abbrev pub Threw : Machine → Machine × Result (List Str) → Type 0
Threw m p =
    (p.1 ≡ err invalid_transition)
    × (p.0.state.status ≡ m.state.status)
    × (p.0.state.phase_ends_at ≡ m.state.phase_ends_at)
    × (p.0.state.players ≡ m.state.players)
    × (p.0.current_round ≡ m.current_round)
    × (p.0.event_log ≡ m.event_log)
