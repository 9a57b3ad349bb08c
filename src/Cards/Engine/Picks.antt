-- ===== src/Cards/Engine/Picks.antt =====
-- What the random card effects of packages/game-core/src/card-engine.ts pick.
use the_arena_of.Prelude.{
  ℕ, zero, suc, ◌+◌, ◌≤◌, ◌<◌, ◌≡◌, refl, sym, ap, subst, ◌∙◌, Bool, not, true, false, List, [],
  ◌∷◌, ◌++◌, none, some, inl, inr, Bool-cases, length, get_elem?, get_elem?-total, erase_idx,
  length-erase_idx, min, All, Perm, arith, ◌==◌, list_eq, nat_eq, All-map,
}
use mathlib.Core.List.{append_assoc, append-nil}
use mathlib.Core.List.Perm
use the_arena_of.Prelude.Sort.{sort, sort-perm, length-sort}
use the_arena_of.Errors.{Result, ok}
use the_arena_of.Text.{Str}
use the_arena_of.Prng.Sha256.{word_size}
use the_arena_of.Cards.Defs.{CardId, CardEffect}
use the_arena_of.Cards.Catalog.{compare_card_id}
use the_arena_of.Cards.Engine.{
  Rng, index_of_roll, pick_each, resolve_hand_destroy, resolve_option_disable, wrong_indexes,
}
use the_arena_of.Cards.Engine.Offers.{index_of_roll-lt, erase_idx-perm}

-- `n` picks without replacement.
pub record Picks {ℓ} {A : Type ℓ} (n : ℕ) (from picked : List A)
    (res : Result (List A × List A × ℕ)) : Type ℓ where
  pub chosen : List A
  pub rest : List A
  pub state : ℕ
  pub returned : res ≡ ok (picked ++ chosen, rest, state)
  pub split : Perm from (chosen ++ rest)
  pub size : length chosen ≡ n
  pub every : (p : A → Bool) → All (λ x. p x ≡ true) from → All (λ x. p x ≡ true) chosen

All-erase_idx {ℓ} :
    {A : Type ℓ} (p : A → Bool) (xs : List A) (i : ℕ) (a : A)
    → get_elem? xs i ≡ some a
    → All (λ x. p x ≡ true) xs
    → (p a ≡ true) × All (λ x. p x ≡ true) (erase_idx xs i)
All-erase_idx p [] i a h all = cc
All-erase_idx p (x ∷ xs) zero a h all =
    let x≡a : x ≡ a = cc in (subst (λ y. p y ≡ true) x≡a all.0, all.1)
All-erase_idx p (x ∷ xs) (suc i) a h all =
    let rest = All-erase_idx p xs i a h all.1 in (rest.0, (all.0, rest.1))

-- The place of an option that is not the answer.
abbrev pub is_wrong : List Str → Str → ℕ → Bool
is_wrong options answer i = elim (get_elem? options i) [ none ↦ false | some o ↦ not (o == answer) ]

wrong_indexes-IsWrong :
    (start : ℕ) (answer : Str) (options : List Str)
    → All
        (λ i. (j : ℕ) × (i ≡ start + j) × (is_wrong options answer j ≡ true))
        (wrong_indexes start answer options)
unfolding wrong_indexes
wrong_indexes-IsWrong start answer [] = tt
wrong_indexes-IsWrong start answer (o ∷ os) =
    let later =
      All-map (λ i. (j : ℕ) × (i ≡ start + j) × (is_wrong (o ∷ os) answer j ≡ true))
        (λ i (j, e, w). (suc j, omega (arith, e), w)) (wrong_indexes (suc start) answer os)
        (wrong_indexes-IsWrong (suc start) answer os) in
    elim (Bool-cases (o == answer)) [
      | inl e ↦ rw e later
      | inr e ↦ rw e ((0, omega arith, rw e refl), later)
    ]

wrong_indexes-is_wrong :
    (answer : Str) (options : List Str)
    → All (λ i. is_wrong options answer i ≡ true) (wrong_indexes 0 answer options)
wrong_indexes-is_wrong answer options =
    All-map (λ i. is_wrong options answer i ≡ true)
      (λ i (j, e, w). let i≡j : i ≡ j = omega (arith, e) in ap (is_wrong options answer) i≡j ∙ w)
      (wrong_indexes 0 answer options) (wrong_indexes-IsWrong 0 answer options)

module _ (rng : Rng) (bounded : (s : ℕ) → (rng s).0 < word_size) where
  pick_each-Picks {ℓ} :
      {A : Type ℓ} (n s : ℕ) (from picked : List A)
      → n ≤ length from
      → Picks n from picked (pick_each rng n s from picked)
  unfolding pick_each
  pick_each-Picks zero s from picked h = record {
    chosen = [];
    rest = from;
    state = s;
    returned = λ i. ok (sym (append-nil picked) i, from, s);
    split = Perm.refl from;
    size = refl;
    every = λ p h. tt;
  }
  pick_each-Picks (suc n) s from picked h =
      let idx = index_of_roll (rng s).0 (length from) in
      let idx_lt = index_of_roll-lt (rng s).0 (length from) (bounded s) (omega arith) in
      let (a, e) = get_elem?-total from idx idx_lt in
      let next =
        pick_each-Picks n (rng s).1 (erase_idx from idx) (picked ++ a ∷ [])
          (omega (arith, length-erase_idx from idx idx_lt)) in
      record {
        chosen = a ∷ next.chosen;
        rest = next.rest;
        state = next.state;
        returned =
            rw (e, pick_each)
              (next.returned ∙ λ i.
                ok (append_assoc picked (a ∷ []) next.chosen i, next.rest, next.state));
        split = Perm.trans (erase_idx-perm from idx a e) (Perm.cons a next.split);
        size = ap suc next.size;
        every = λ p h. let f = All-erase_idx p from idx a e h in (f.0, next.every p f.1);
      }

  -- A hand is destroyed by as many cards as the effect says, or wholly where it is smaller; the
  -- destroyed cards and the others make up the hand. The generator's floats are below 1.
  pub resolve_hand_destroy-Picks :
      (s count : ℕ) (hand : List CardId)
      → (destroyed rest : List CardId) × (s' : ℕ) × (resolve_hand_destroy rng s count hand
          ≡ ok (CardEffect.hand_destroy count (length hand) destroyed, s'))
        × Perm hand (destroyed ++ rest)
        × (length destroyed ≡ min count (length hand))
  unfolding resolve_hand_destroy
  resolve_hand_destroy-Picks s count hand =
      let sorted = sort compare_card_id hand in
      let n = min count (length sorted) in
      let p = pick_each-Picks n s sorted [] (omega arith) in
      (
        p.chosen,
        p.rest,
        p.state,
        rw p.returned (λ i.
            ok (
              CardEffect.hand_destroy count (length-sort compare_card_id hand i) p.chosen,
              p.state,
            )),
        Perm.trans (Perm.symm (sort-perm compare_card_id hand)) p.split,
        omega (arith, p.size, length-sort compare_card_id hand),
      )

  -- As many options are disabled as the effect says, or all wrong ones where there are fewer; each of
  -- them is an option that is not the answer, and together with other wrong ones they make up the
  -- wrong ones, each once. The generator's floats are below 1.
  pub resolve_option_disable-Picks :
      (s count duration : ℕ) (options : List Str) (answer : Str)
      → (disabled rest : List ℕ) × (s' : ℕ) × (resolve_option_disable rng s count duration options
            answer
          ≡ ok (
            CardEffect.option_disable disabled count
                (length (wrong_indexes 0 answer options))
                duration,
            s',
          ))
        × All (λ i. is_wrong options answer i ≡ true) disabled
        × Perm (wrong_indexes 0 answer options) (disabled ++ rest)
        × (length disabled ≡ min count (length (wrong_indexes 0 answer options)))
  unfolding resolve_option_disable
  resolve_option_disable-Picks s count duration options answer =
      let wrong = wrong_indexes 0 answer options in
      let p = pick_each-Picks (min count (length wrong)) s wrong [] (omega arith) in
      (
        p.chosen,
        p.rest,
        p.state,
        rw p.returned refl,
        p.every (is_wrong options answer) (wrong_indexes-is_wrong answer options),
        p.split,
        p.size,
      )
