-- ===== src/Rules/TopicVoting/Bans.antt =====
-- What the ballot of packages/game-core/src/topic-voting.ts promises.
use the_arena_of.Prelude.{
  if◌then◌else◌, includes, none, some, ℕ, ◌≤◌, ◌≡◌, refl, sym, subst, List, ◌++◌, inl, inr,
  Bool-cases, leb, length, take, drop, take-append-drop, length-take, min, All, All-map, Perm,
  false, [], ◌∷◌, ap, leb→le, list_eq, nat_eq, arith,
}
use mathlib.Core.List.Perm
use the_arena_of.Prelude.Dict.{Dict, get, or_else}
use the_arena_of.Prelude.Sort.{
  by_key_desc-IsOrder, IsOrder, same-IsOrder, IsSorted-split, sort, sort-perm, sort-IsSorted,
  length-sort,
}
use the_arena_of.Text.{Str}
use the_arena_of.Rules.TopicVoting.Tally.{vote_count, tally_topic_votes-get}
use the_arena_of.Rules.TopicVoting.{TopicVotingResult, bans_before, resolve_banned_topics}

abbrev votes_for : Dict Str ℕ → Str → ℕ
votes_for counts t = or_else (get counts t) 0

-- The outcome of a ballot on the candidates.
pub record Ballot (candidates : List Str) (votes : Dict Str Str) (banned_count : ℕ)
    (r : TopicVotingResult) : Type 0 where
  pub counted :
      (t : Str)
      → get r.vote_counts t ≡ (if includes candidates t then some (vote_count votes t) else none)
  pub split : Perm (r.banned_topics ++ r.active_topics) candidates
  pub size : length r.banned_topics ≡ min banned_count (length candidates)
  pub most_votes :
      All
        (λ b. All (λ a. votes_for r.vote_counts a ≤ votes_for r.vote_counts b) r.active_topics)
        r.banned_topics

not-before :
    (counts rolls : Dict Str ℕ) (a b : Str)
    → bans_before counts rolls b a ≡ false
    → votes_for counts b ≤ votes_for counts a
unfolding bans_before
not-before counts rolls a b h = ground arith

bans_before-IsOrder : (counts rolls : Dict Str ℕ) → IsOrder (bans_before counts rolls)
unfolding bans_before
bans_before-IsOrder counts rolls =
    by_key_desc-IsOrder (votes_for counts) _ (by_key_desc-IsOrder (votes_for rolls) _ same-IsOrder)

module _ (candidates : List Str) (votes : Dict Str Str) (counts rolls : Dict Str ℕ) (n : ℕ)
    (tallied : (t : Str)
      → get counts t ≡ (if includes candidates t then some (vote_count votes t) else none)) where
  abbrev ranked : List Str
  ranked = sort (bans_before counts rolls) candidates

  ranked-Ballot : Ballot candidates votes n (record {
    banned_topics = take n ranked;
    active_topics = drop n ranked;
    vote_counts = counts;
  })
  ranked-Ballot = record {
    counted = tallied;
    split =
        subst (λ xs. Perm xs candidates) (sym (take-append-drop n ranked)) (sort-perm _ candidates);
    size = omega (arith, length-take n ranked, length-sort (bans_before counts rolls) candidates);
    most_votes =
        All-map _ (λ b h. All-map _ (λ a. not-before counts rolls b a) (drop n ranked) h)
          (take n ranked)
          (IsSorted-split (bans_before counts rolls) n ranked (
            sort-IsSorted (bans_before counts rolls) (bans_before-IsOrder counts rolls)
              candidates));
  }

  all-Ballot :
      length candidates ≤ n
      → Ballot candidates votes n
          (record { banned_topics = candidates; active_topics = []; vote_counts = counts })
  all-Ballot h = record {
    counted = tallied;
    split = subst (λ xs. Perm xs candidates) (sym (append_nil candidates)) (Perm.refl candidates);
    size = omega arith;
    most_votes = nothing candidates;
  }
    where
      append_nil : (xs : List Str) → xs ++ [] ≡ xs
      append_nil [] = refl
      append_nil (x ∷ xs) = ap (x ∷◌) (append_nil xs)

      nothing : (xs : List Str) → All (λ b. Unit {0}) xs
      nothing [] = tt
      nothing (x ∷ xs) = (tt, nothing xs)

-- The ballot splits the candidates into the banned and the active topics, bans as many as asked for
-- or else all of them, counts for each candidate the players who vote for it, and no active topic has
-- more of these votes than a banned one.
pub resolve_banned_topics-Ballot :
    (candidates : List Str) (votes : Dict Str Str) (seed : Str) (banned_count : ℕ)
    → Ballot candidates votes banned_count
        (resolve_banned_topics candidates votes seed banned_count)
unfolding resolve_banned_topics
resolve_banned_topics-Ballot candidates votes seed banned_count =
    elim (Bool-cases (leb (length candidates) banned_count)) [
      | inl h ↦ rw h (
          all-Ballot candidates votes _ [] banned_count (tally_topic_votes-get votes candidates)
            (leb→le _ _ h))
      | inr h ↦
          rw h (
            ranked-Ballot candidates votes _ _ banned_count
              (tally_topic_votes-get votes candidates))
    ]
