-- ===== src/Rules/TopicVoting/Tally.antt =====
-- packages/game-core/src/topic-voting.ts: what `tallyTopicVotes` counts.
use the_arena_of.Prelude.{
  ℕ, ◌+◌, ◌≡◌, refl, sym, ◌∙◌, ap, Bool, true, false, List, [], ◌∷◌, Option, none, some, inl, inr,
  if◌then◌else◌, Bool-cases, Option-cases, includes, ◌==◌, list_beq_iff, list_eq, nat_eq, arith,
}
use the_arena_of.Prelude.Dict.{Dict, get, set, get-set_self, get-set_ne}
use the_arena_of.Text.{Str}
use the_arena_of.Rules.TopicVoting.{zero_counts, count_vote, count_votes, tally_topic_votes}

-- How many players vote for a topic.
abbrev pub vote_count : Dict Str Str → Str → ℕ
vote_count [] topic = 0
vote_count ((player, t) ∷ votes) topic = (if t == topic then 1 else 0) + vote_count votes topic

zero_counts-get :
    (m : Dict Str ℕ) (ts : List Str) (t : Str)
    → get (zero_counts m ts) t ≡ (if includes ts t then some 0 else get m t)
unfolding zero_counts
zero_counts-get m [] t = refl
zero_counts-get m (x ∷ ts) t = zero_counts-get (set m x 0) ts t ∙ by_head
  where
    either_way : (b : Bool) {o : Option ℕ} → (if b then o else o) ≡ o
    either_way true = refl
    either_way false = refl

    by_head :
        (if includes ts t then some 0 else get (set m x 0) t)
        ≡ (if includes (x ∷ ts) t then some 0 else get m t)
    by_head = elim (Bool-cases (x == t)) [
      | inl e ↦
          rw e (
            rw (sym ((list_beq_iff x t).0 e))
              (rw (get-set_self m x 0) (either_way (includes ts x))))
      | inr e ↦ rw (e, get-set_ne m x t 0 e) refl
    ]

abbrev plus : ℕ → Option ℕ → Option ℕ
plus n none = none
plus n (some k) = some (k + n)

plus-zero : (o : Option ℕ) → plus 0 o ≡ o
plus-zero none = refl
plus-zero (some k) = ap some (omega arith)

count_vote-get_self : (m : Dict Str ℕ) (x : Str) → get (count_vote m x) x ≡ plus 1 (get m x)
unfolding count_vote
count_vote-get_self m x = elim (Option-cases (get m x)) [
  | inl f ↦ rw (f, count_vote) f
  | inr (n, f) ↦ rw (f, count_vote) (get-set_self m x (n + 1))
]

count_vote-get_ne :
    (m : Dict Str ℕ) (x t : Str) → (x == t) ≡ false → get (count_vote m x) t ≡ get m t
unfolding count_vote
count_vote-get_ne m x t e = elim (Option-cases (get m x)) [
  | inl f ↦ rw (f, count_vote) refl
  | inr (n, f) ↦ rw (f, count_vote) (get-set_ne m x t (n + 1) e)
]

count_vote-get :
    (m : Dict Str ℕ) (x t : Str) → get (count_vote m x) t ≡ plus (if x == t then 1 else 0) (get m t)
count_vote-get m x t = elim (Bool-cases (x == t)) [
  | inl e ↦ rw e (rw (sym ((list_beq_iff x t).0 e)) (count_vote-get_self m x))
  | inr e ↦ rw e (count_vote-get_ne m x t e ∙ sym (plus-zero (get m t)))
]

plus-plus : (a b : ℕ) (o : Option ℕ) → plus b (plus a o) ≡ plus (a + b) o
plus-plus a b none = refl
plus-plus a b (some k) = ap some (omega arith)

count_votes-get :
    (m : Dict Str ℕ) (votes : Dict Str Str) (t : Str)
    → get (count_votes m votes) t ≡ plus (vote_count votes t) (get m t)
unfolding count_votes
count_votes-get m [] t = sym (plus-zero (get m t))
count_votes-get m ((player, x) ∷ votes) t =
    count_votes-get (count_vote m x) votes t
    ∙ ap (plus (vote_count votes t)) (count_vote-get m x t)
    ∙ plus-plus (if x == t then 1 else 0) (vote_count votes t) (get m t)

-- The tally has, for each candidate, the number of players who vote for it, and no other topic.
pub tally_topic_votes-get :
    (votes : Dict Str Str) (candidates : List Str) (t : Str)
    → get (tally_topic_votes votes candidates) t
      ≡ (if includes candidates t then some (vote_count votes t) else none)
unfolding tally_topic_votes get
tally_topic_votes-get votes candidates t =
    count_votes-get (zero_counts [] candidates) votes t
    ∙ ap (plus (vote_count votes t)) (zero_counts-get [] candidates t)
    ∙ by_candidate (includes candidates t)
  where
    by_candidate :
        (b : Bool)
        → plus (vote_count votes t) (if b then some 0 else none)
          ≡ (if b then some (vote_count votes t) else none)
    by_candidate true = ap some (omega arith)
    by_candidate false = refl
