-- ===== src/Rules/TopicVoting.antt =====
-- packages/game-core/src/topic-voting.ts.
pub mod Bans
pub mod Tally
use the_arena_of.Prelude.{
  ℕ, ◌+◌, Bool, List, [], ◌∷◌, none, some, if◌then◌else◌, leb, length, take, drop, map, list_eq,
  nat_eq,
}
use the_arena_of.Prelude.Dict.{Dict, get, set, or_else}
use the_arena_of.Prelude.Sort.{by_key, by_key_desc, same, sort}
use the_arena_of.Prng.{derive_substream, rolls}
use the_arena_of.Text.{Str, lit, str_lt}
use the_arena_of.Rules.TieBreak.{roll_offsets}

pub record TopicVotingResult : Type 0 where
  pub banned_topics : List Str
  pub active_topics : List Str
  pub vote_counts : Dict Str ℕ

abbrev pub candidate_pool : List Str
candidate_pool =
    lit "SCIENCE"
    ∷ lit "HISTORY"
    ∷ lit "GEOGRAPHY"
    ∷ lit "TECHNOLOGY"
    ∷ lit "SPORTS"
    ∷ lit "CULTURE"
    ∷ lit "LOGIC"
    ∷ []

unfoldable pub select_candidate_topics : Str → ℕ → List Str → List Str
select_candidate_topics seed count pool =
    if leb (length pool) count
    then pool
    else map (λ p. p.0)
        (take count (
          sort (by_key (λ (p : Str × ℕ). p.1) same)
            (rolls (derive_substream seed (lit "topic-candidates")) pool)))

zero_counts : Dict Str ℕ → List Str → Dict Str ℕ
zero_counts m [] = m
zero_counts m (t ∷ ts) = zero_counts (set m t 0) ts

-- A vote for a topic that is no candidate is not counted.
count_vote : Dict Str ℕ → Str → Dict Str ℕ
count_vote m topic = elim (get m topic) [ none ↦ m | some n ↦ set m topic (n + 1) ]

count_votes : Dict Str ℕ → Dict Str Str → Dict Str ℕ
unfolding count_vote
count_votes m [] = m
count_votes m ((player, topic) ∷ votes) = count_votes (count_vote m topic) votes

unfoldable pub tally_topic_votes : Dict Str Str → List Str → Dict Str ℕ
unfolding zero_counts count_votes
tally_topic_votes votes candidates = count_votes (zero_counts [] candidates) votes

-- `compare(a, b) < 0`: more votes first, then the higher roll.
unfoldable pub bans_before : Dict Str ℕ → Dict Str ℕ → Str → Str → Bool
bans_before counts rolls =
    by_key_desc (λ t. or_else (get counts t) 0) (by_key_desc (λ t. or_else (get rolls t) 0) same)

abbrev pub topic_voting_banned_count : ℕ
topic_voting_banned_count = 2

unfoldable pub resolve_banned_topics : List Str → Dict Str Str → Str → ℕ → TopicVotingResult
unfolding bans_before
resolve_banned_topics candidates votes seed banned_count =
    let counts = tally_topic_votes votes candidates in
    let rolls =
      roll_offsets (derive_substream seed (lit "topic-ban-tiebreak")) (sort str_lt candidates) [] in
    let ranked = sort (bans_before counts rolls) candidates in
    if leb (length candidates) banned_count
    then record { banned_topics = candidates; active_topics = []; vote_counts = counts }
    else record {
      banned_topics = take banned_count ranked;
      active_topics = drop banned_count ranked;
      vote_counts = counts;
    }
