-- ===== src/Rules/Placements/Ranking.antt =====
-- What a ranking of packages/game-core/src/elo-engine.ts promises.
use the_arena_of.Prelude.{
  any_of, includes, ◌==◌, ◌||◌, ℕ, suc, ◌≤◌, ◌≡◌, refl, sym, ap, subst, Bool, true, false, List, [],
  ◌∷◌, map, Perm, Option, none, some, if◌then◌else◌, list_eq, nat_eq, All, arith, Bool-cases, inl,
  inr,
}
use the_arena_of.Prelude.Dict.{or_else}
use the_arena_of.Prelude.Sort.{
  IsOrder, IsSorted, by_key-IsOrder, by_key_desc-IsOrder, sort, sort-perm, sort-IsSorted,
}
use the_arena_of.Text.{Str}
use the_arena_of.Rules.Placements.{
  Contender, effective_winner_id, wins, winner_key, rounds_of, ranks_before, numbered,
  assign_placements,
}

ranks_before-IsOrder :
    (before : Str → Str → Bool) (w : Option Str) → IsOrder before → IsOrder (ranks_before before w)
unfolding ranks_before
ranks_before-IsOrder before w o = by_key-IsOrder (winner_key w) _ (
    by_key_desc-IsOrder rounds_of _ (
      by_key_desc-IsOrder (λ p. p.score) _
        (by_key-IsOrder (λ p. elim p.avg_response_ms [ none ↦ 1 | some t ↦ 0 ]) _
          (by_key-IsOrder (λ p. or_else p.avg_response_ms 0) _
            (record {
              asym = λ a b. o.asym a.user_id b.user_id;
              trans = λ a b c. o.trans a.user_id b.user_id c.user_id;
            })))))

numbered-players :
    (n : ℕ) (ps : List Contender) → map (λ (e : Contender × ℕ). e.0) (numbered n ps) ≡ ps
numbered-players n [] = refl
numbered-players n (p ∷ ps) = ap (p ∷◌) (numbered-players (suc n) ps)

-- Before another: the winner, then the later eliminated, then the higher score.
abbrev NoWorse : Option Str → Contender → Contender → Type 0
NoWorse w a b =
    (wins w b ≡ true → wins w a ≡ true)
    × (wins w a ≡ wins w b → rounds_of b ≤ rounds_of a)
    × (wins w a ≡ wins w b → rounds_of a ≡ rounds_of b → b.score ≤ a.score)

not-ranks_before :
    (before : Str → Str → Bool) (w : Option Str) (a b : Contender)
    → ranks_before before w b a ≡ false
    → NoWorse w a b
unfolding ranks_before
not-ranks_before before w a b h = (
  λ y. elim (Bool-cases (wins w a)) [ inl x ↦ x | inr x ↦ absurd (ahead x y) ],
  λ e. ground (arith, h, ap key e),
  λ e r. ground (arith, h, ap key e, r),
)
  where
    key : Bool → ℕ
    key x = if x then 0 else 1

    ahead : wins w a ≡ false → wins w b ≡ true → ⊥
    ahead x y = ground (arith, h, ap key x, ap key y)

-- The placements count from `n` up, and nobody placed ahead is worse.
abbrev Ranked : Option Str → ℕ → List (Contender × ℕ) → Type 0
Ranked w n [] = Unit
Ranked w n (e ∷ es) =
    (e.1 ≡ n) × All (λ (x : Contender × ℕ). NoWorse w e.0 x.0) es × Ranked w (suc n) es

numbered-All :
    (P : Contender → Type 0) (n : ℕ) (ps : List Contender)
    → All P ps
    → All (λ (x : Contender × ℕ). P x.0) (numbered n ps)
numbered-All P n [] h = tt
numbered-All P n (p ∷ ps) h = (h.0, numbered-All P (suc n) ps h.1)

sorted-Ranked :
    (before : Str → Str → Bool) (w : Option Str) (n : ℕ) (ps : List Contender)
    → IsSorted (ranks_before before w) ps
    → Ranked w n (numbered n ps)
sorted-Ranked before w n [] h = tt
sorted-Ranked before w n (p ∷ ps) h = (
  refl,
  numbered-All (NoWorse w p) (suc n) ps (behind ps h.0),
  sorted-Ranked before w (suc n) ps h.1,
)
  where
    behind :
        (qs : List Contender)
        → All (λ q. ranks_before before w q p ≡ false) qs
        → All (NoWorse w p) qs
    behind [] h = tt
    behind (q ∷ qs) h = (not-ranks_before before w p q h.0, behind qs h.1)

-- The winner by the match's record, where it names one of the players; else the players who are marked.
abbrev pub flagged : Option Bool → Bool
flagged none = false
flagged (some b) = b

abbrev pub champion : Option Str → List Contender → Contender → Bool
champion none players p = flagged p.is_winner
champion (some []) players p = flagged p.is_winner
champion (some (c ∷ w)) players p =
    if includes (map (λ (q : Contender). q.user_id) players) (c ∷ w)
    then p.user_id == (c ∷ w)
    else flagged p.is_winner

-- The rounds that a player survived, or else the round that eliminated the player.
abbrev pub reached : Option ℕ → Option ℕ → ℕ
reached (some n) round = n
reached none (some n) = n
reached none none = 0

-- Before another: the champion, then the later eliminated, then the higher score.
abbrev pub Ahead : Option Str → List Contender → Contender → Contender → Type 0
Ahead w players a b =
    (champion w players b ≡ true → champion w players a ≡ true)
    × (champion w players a ≡ champion w players b
        → reached b.survived_rounds b.eliminated_in_round
          ≤ reached a.survived_rounds a.eliminated_in_round)
    × (champion w players a ≡ champion w players b
        → reached a.survived_rounds a.eliminated_in_round
          ≡ reached b.survived_rounds b.eliminated_in_round
        → b.score ≤ a.score)

any_of-includes :
    (w : Str) (players : List Contender)
    → any_of (λ (p : Contender). p.user_id == w) players
      ≡ includes (map (λ (q : Contender). q.user_id) players) w
any_of-includes w [] = refl
any_of-includes w (p ∷ players) = ap (p.user_id == w ||◌) (any_of-includes w players)

flagged-or_else : (o : Option Bool) → or_else o false ≡ flagged o
flagged-or_else none = refl
flagged-or_else (some b) = refl

wins-champion :
    (w : Option Str) (players : List Contender) (p : Contender)
    → wins (effective_winner_id w players) p ≡ champion w players p
wins-champion none players p = flagged-or_else p.is_winner
wins-champion (some []) players p = flagged-or_else p.is_winner
wins-champion (some (c ∷ w)) players p =
    rw (any_of-includes (c ∷ w) players)
      (by_known (includes (map (λ (q : Contender). q.user_id) players) (c ∷ w)))
  where
    by_known :
        (b : Bool)
        → wins (if b then some (c ∷ w) else none) p
          ≡ (if b then p.user_id == (c ∷ w) else flagged p.is_winner)
    by_known true = refl
    by_known false = flagged-or_else p.is_winner

rounds_of-reached : (p : Contender) → rounds_of p ≡ reached p.survived_rounds p.eliminated_in_round
rounds_of-reached p = by_fields p.survived_rounds p.eliminated_in_round
  where
    by_fields : (s e : Option ℕ) → or_else s (or_else e 0) ≡ reached s e
    by_fields (some n) e = refl
    by_fields none (some n) = refl
    by_fields none none = refl

NoWorse-Ahead :
    (w : Option Str) (players : List Contender) (a b : Contender)
    → NoWorse (effective_winner_id w players) a b
    → Ahead w players a b
NoWorse-Ahead w players a b h =
    rw
      (
        sym (wins-champion w players a),
        sym (wins-champion w players b),
        sym (rounds_of-reached a),
        sym (rounds_of-reached b),
      )
      h

-- The placements count from `n` up, and nobody is placed behind one that is to be behind.
abbrev pub Placed : Option Str → List Contender → ℕ → List (Contender × ℕ) → Type 0
Placed w players n [] = Unit
Placed w players n (e ∷ es) =
    (e.1 ≡ n)
    × All (λ (x : Contender × ℕ). Ahead w players e.0 x.0) es
    × Placed w players (suc n) es

Ranked-Placed :
    (w : Option Str) (players : List Contender) (n : ℕ) (es : List (Contender × ℕ))
    → Ranked (effective_winner_id w players) n es
    → Placed w players n es
Ranked-Placed w players n [] h = tt
Ranked-Placed w players n (e ∷ es) h = (h.0, each es h.1, Ranked-Placed w players (suc n) es h.2)
  where
    each :
        (xs : List (Contender × ℕ))
        → All (λ (x : Contender × ℕ). NoWorse (effective_winner_id w players) e.0 x.0) xs
        → All (λ (x : Contender × ℕ). Ahead w players e.0 x.0) xs
    each [] k = tt
    each (x ∷ xs) k = (NoWorse-Ahead w players e.0 x.0 k.0, each xs k.1)

-- Every player is placed once, and the placements count 1, 2, 3, …. The winner, who is the player that the
-- match's record names or else one marked as winner, is ahead of every other player; of two that are both
-- winners or both not, the one ahead has survived as many rounds or more (or, where those are not given,
-- was eliminated as late) and, with the same rounds, has no lower score. The comparison of ids is an order.
pub assign_placements-Ranked :
    (before : Str → Str → Bool)
    → IsOrder before
    → (players : List Contender) (winner_id : Option Str)
    → let placed = assign_placements before players winner_id in
      Perm (map (λ (e : Contender × ℕ). e.0) placed) players × Placed winner_id players 1 placed
unfolding assign_placements
assign_placements-Ranked before o players winner_id =
    let w = effective_winner_id winner_id players in
    let lt = ranks_before before w in
    (
      subst (λ ps. Perm ps players) (sym (numbered-players 1 (sort lt players)))
          (sort-perm lt players),
      Ranked-Placed winner_id players 1 _ (
          sorted-Ranked before w 1 (sort lt players)
            (sort-IsSorted lt (ranks_before-IsOrder before w o) players)),
    )
