-- ===== src/Tests/Ballots.antt =====
-- The theorems on ballots, tie-breaks and classes at concrete inputs.
use the_arena_of.Prelude.{
  ◌≡◌, ◌≤◌, ◌*◌, refl, true, List, [], ◌∷◌, none, some, ◌⊎◌, map, includes, All, list_eq, nat_eq,
  Perm, arith,
}
use the_arena_of.Prelude.Dict.{Dict, get, has}
use the_arena_of.Text.{Str, lit}
use the_arena_of.Errors.{ok, err, room_error, ErrorCode}
use the_arena_of.Rules.Scoring.{floor_total, compute_round_score}
use the_arena_of.Rules.TieBreak.{known_ids, resolve_tie_break, beats}
use the_arena_of.Rules.TieBreak.Best.{NoWorse, resolve_tie_break-best}
use the_arena_of.Rules.Scoring.{floor_total_bounds}
use the_arena_of.Rules.TopicVoting.{resolve_banned_topics}
use the_arena_of.Rules.TopicVoting.Bans.{Ballot, resolve_banned_topics-Ballot}
use the_arena_of.Rules.Classes.{assign_classes}
use the_arena_of.Rules.Classes.Balance.{attackers, assign_classes-balance}
use the_arena_of.Prelude.Sort.{sort}
use the_arena_of.Match.State.{PlayerInfo, Machine, status_eq}
use the_arena_of.Match.Topics.{init_topic_voting, vote_ban_topic, check_time}
use the_arena_of.Match.Topics.Guards.{Voted}
use the_arena_of.Match.Topics.Votes.{vote_ban_topic-Voted}
use the_arena_of.Match.Topics.Guards.{Unvoted}
use the_arena_of.Tests.Matches.{player, new_match}

abbrev stats : Dict Str PlayerInfo
stats =
    (lit "ann", record (player (lit "ann")) { total_response_time_ms = 9000; correct_answers = 3 })
    ∷ (
      lit "bob",
      record (player (lit "bob")) { total_response_time_ms = 8000; correct_answers = 2 },
    )
    ∷ []

abbrev tied : List Str
tied = lit "ann" ∷ lit "bob" ∷ []

resolve_tie_break-best_example :
    (includes tied (lit "bob") ≡ true)
    × (has stats (lit "bob") ≡ true)
    × All (NoWorse stats (lit "bob")) (known_ids stats tied)
unfolding resolve_tie_break get beats sort
resolve_tie_break-best_example = resolve_tie_break-best tied stats (lit "m") (lit "bob") refl

abbrev candidates : List Str
candidates = lit "SCIENCE" ∷ lit "HISTORY" ∷ lit "SPORTS" ∷ []

abbrev votes : Dict Str Str
votes = (lit "ann", lit "SPORTS") ∷ (lit "bob", lit "SPORTS") ∷ []

resolve_banned_topics-Ballot_example :
    Ballot candidates votes 2 (resolve_banned_topics candidates votes (lit "m") 2)
resolve_banned_topics-Ballot_example = resolve_banned_topics-Ballot candidates votes (lit "m") 2

assign_classes-balance_example :
    Perm (map (λ p. p.0) (assign_classes tied (lit "m"))) tied
    × (2 ≤ 2 * attackers (assign_classes tied (lit "m")))
    × (2 * attackers (assign_classes tied (lit "m")) ≤ 3)
assign_classes-balance_example = assign_classes-balance tied (lit "m")

floor_total_bounds_example :
    (100 ≤ floor_total (compute_round_score 9000))
    × (floor_total (compute_round_score 9000) ≤ floor_total (compute_round_score 2500))
    × (floor_total (compute_round_score 2500) ≤ 150)
floor_total_bounds_example = floor_total_bounds 2500 9000 (omega arith)

-- The vote is open.
abbrev voting : Machine
voting = (init_topic_voting (some candidates) none new_match).0

vote_ban_topic-Voted_example :
    (((vote_ban_topic (lit "ann") (lit "SPORTS") none voting).1 ≡ ok true)
      × Voted
          (lit "ann")
          (lit "SPORTS")
          voting
          (vote_ban_topic (lit "ann") (lit "SPORTS") none voting).0)
    ⊎ ((e : ErrorCode) × Unvoted (lit "ann") (lit "SPORTS") voting e
        × (vote_ban_topic (lit "ann") (lit "SPORTS") none voting
            ≡ (check_time voting, err (room_error e))))
vote_ban_topic-Voted_example = vote_ban_topic-Voted (lit "ann") (lit "SPORTS") none voting
