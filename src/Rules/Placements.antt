-- ===== src/Rules/Placements.antt =====
-- packages/game-core/src/elo-engine.ts: `assignPlacements`; packages/shared/src/elo.ts: `getRankTier`.
pub mod Ranking
use the_arena_of.Prelude.{
  ℕ, suc, Bool, true, false, not, List, [], ◌∷◌, Option, none, some, if◌then◌else◌, any_of, leb,
  ◌==◌, list_eq, nat_eq, ◌&&◌,
}
use the_arena_of.Prelude.Dict.{or_else}
use the_arena_of.Prelude.Sort.{by_key, by_key_desc, sort}
use the_arena_of.Text.{Str, is_empty}

-- What the ranking reads of a player. The average time is a non-negative double, kept as the number that its
-- 64 bits spell: these stand in the order of the doubles.
pub record Contender : Type 0 where
  pub user_id : Str
  pub score : ℕ
  pub avg_response_ms : Option ℕ
  pub survived_rounds : Option ℕ
  pub eliminated_in_round : Option ℕ
  pub is_winner : Option Bool

-- The winner's id, where it is not empty and names a player.
abbrev pub effective_winner_id : Option Str → List Contender → Option Str
effective_winner_id none players = none
effective_winner_id (some w) players =
    if not (is_empty w) && any_of (λ (p : Contender). p.user_id == w) players then some w else none

abbrev pub wins : Option Str → Contender → Bool
wins none p = or_else p.is_winner false
wins (some w) p = p.user_id == w

-- 0 for the winner, 1 for the others.
abbrev pub winner_key : Option Str → Contender → ℕ
winner_key w p = if wins w p then 0 else 1

abbrev pub rounds_of : Contender → ℕ
rounds_of p = or_else p.survived_rounds (or_else p.eliminated_in_round 0)

-- A missing response time is infinite: it comes after every time, and equals another missing one.
abbrev pub by_speed : (Contender → Contender → Bool) → Contender → Contender → Bool
by_speed rest =
    by_key (λ p. elim p.avg_response_ms [ none ↦ 1 | some t ↦ 0 ])
      (by_key (λ p. or_else p.avg_response_ms 0) rest)

-- The sort's comparison is negative. `before a b` says that `a.localeCompare(b)` is.
unfoldable pub ranks_before : (Str → Str → Bool) → Option Str → Contender → Contender → Bool
ranks_before before w = by_key (winner_key w) (
    by_key_desc rounds_of
      (by_key_desc (λ p. p.score) (by_speed (λ a b. before a.user_id b.user_id))))

-- Each with its index plus one; `next` is the first one's.
abbrev pub numbered : ℕ → List Contender → List (Contender × ℕ)
numbered next [] = []
numbered next (p ∷ ps) = (p, next) ∷ numbered (suc next) ps

unfoldable pub assign_placements :
    (Str → Str → Bool) → List Contender → Option Str → List (Contender × ℕ)
assign_placements before players winner_id =
    numbered 1 (sort (ranks_before before (effective_winner_id winner_id players)) players)

pub data RankTier : Type 0 where
  bronze silver gold platinum diamond master grandmaster : RankTier

-- The loop over the tiers from the highest; a negative or infinite rating counts as 0.
unfoldable pub get_rank_tier : ℕ → RankTier
get_rank_tier elo =
    if leb 2200 elo
    then grandmaster
    else if leb 2000 elo
    then master
    else if leb 1800 elo
    then diamond
    else if leb 1600 elo
    then platinum
    else if leb 1400 elo
    then gold
    else if leb 1200 elo
    then silver
    else bronze
