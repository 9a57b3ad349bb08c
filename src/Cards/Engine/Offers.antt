-- ===== src/Cards/Engine/Offers.antt =====
-- The draws of `sampleOffer` in packages/game-core/src/card-engine.ts.
use the_arena_of.Prelude.{
  ℕ, zero, suc, ◌+◌, ◌*◌, ◌/◌, ◌%◌, ◌≤◌, ◌<◌, ◌≡◌, refl, sym, ap, subst, ◌∙◌, Bool, true, false,
  List, [], ◌∷◌, ◌++◌, some, inl, inr, Bool-cases, nat_beq, ltb, ltb→lt, length, get_elem?,
  get_elem?-total, erase_idx, length-erase_idx, min, Perm, arith,
}
use mathlib.Core.List.{perm_middle, append_assoc, append-nil}
use mathlib.Core.List.Perm
use the_arena_of.Errors.{Result, ok}
use the_arena_of.Prng.{increment, scramble, mulberry32, mulberry32-lt}
use the_arena_of.Prng.Sha256.{word_size}
use the_arena_of.Prng.Period.{reaches}
use the_arena_of.Cards.Defs.{CardTier, common, rare, epic, CardId}
use the_arena_of.Cards.Engine.{
  card_step, tier_step, select_tier, SamplingStep, SamplingResult, Remaining, tier_list, set_tier,
  total_remaining, Picked, pick_tier, index_of_roll, draw_card, draw_offer, retry_fuel,
}

-- An index that a float gives is in the list.
pub index_of_roll-lt : (u n : ℕ) → u < word_size → 0 < n → index_of_roll u n < n
index_of_roll-lt u n h p = below (u * n) n (product n) p
  where
    product : (n : ℕ) → u * n ≤ 4294967295 * n
    product zero = omega arith
    product (suc n) = omega (arith, product n)

    below : (x n : ℕ) → x ≤ 4294967295 * n → 0 < n → x / word_size < n
    below x n h p = omega arith

pub erase_idx-perm {ℓ} :
    {A : Type ℓ} (xs : List A) (i : ℕ) (a : A)
    → get_elem? xs i ≡ some a
    → Perm xs (a ∷ erase_idx xs i)
erase_idx-perm [] i a h = cc
erase_idx-perm (x ∷ xs) zero a h =
    let x≡a : x ≡ a = cc in subst (λ y. Perm (x ∷ xs) (y ∷ xs)) x≡a (Perm.refl _)
erase_idx-perm (x ∷ xs) (suc i) a h =
    Perm.trans (Perm.cons x (erase_idx-perm xs i a h)) (Perm.swap a x (erase_idx xs i))

abbrev pub all_remaining : Remaining → List CardId
all_remaining r = r.commons ++ (r.rares ++ r.epics)

set_tier-perm :
    (r : Remaining) (tier : CardTier) (i : ℕ) (c : CardId)
    → get_elem? (tier_list r tier) i ≡ some c
    → Perm (all_remaining r) (c ∷ all_remaining (set_tier r tier (erase_idx (tier_list r tier) i)))
set_tier-perm r common i c h =
    Perm.append_right (r.rares ++ r.epics) (erase_idx-perm r.commons i c h)
set_tier-perm r rare i c h =
    Perm.trans
      (Perm.append_left r.commons (Perm.append_right r.epics (erase_idx-perm r.rares i c h)))
      (perm_middle r.commons _)
set_tier-perm r epic i c h =
    Perm.trans
      (Perm.append_left r.commons (
        Perm.trans (Perm.append_left r.rares (erase_idx-perm r.epics i c h))
          (perm_middle r.rares _)))
      (perm_middle r.commons _)

set_tier-size :
    (r : Remaining) (tier : CardTier) (i : ℕ)
    → i < length (tier_list r tier)
    → total_remaining r ≡ suc (total_remaining (set_tier r tier (erase_idx (tier_list r tier) i)))
set_tier-size r common i h = omega (arith, length-erase_idx r.commons i h)
set_tier-size r rare i h = omega (arith, length-erase_idx r.rares i h)
set_tier-size r epic i h = omega (arith, length-erase_idx r.epics i h)

-- A state whose float selects the tier.
abbrev state_of : CardTier → ℕ
state_of common = 1831565813
state_of rare = 1831565814
state_of epic = 1831565817

state_of-selects : (tier : CardTier) → select_tier (scramble (state_of tier)) ≡ tier
unfolding select_tier
state_of-selects common = refl
state_of-selects rare = refl
state_of-selects epic = refl

state_of-lt : (tier : CardTier) → state_of tier < word_size
state_of-lt common = omega arith
state_of-lt rare = omega arith
state_of-lt epic = omega arith

-- The tier choice ended, on a tier with cards.
record Chosen (r : Remaining) (res : Result Picked) : Type 0 where
  pub picked : Picked
  pub returned : res ≡ ok picked
  pub nonempty : 0 < length (tier_list r picked.tier)

pick_tier-Chosen :
    (k fuel s : ℕ) (retry : Bool) (r : Remaining) (steps : List SamplingStep) (tier : CardTier)
    → k < fuel
    → (s + suc k * increment) % word_size ≡ state_of tier
    → 0 < length (tier_list r tier)
    → Chosen r (pick_tier fuel s retry r steps)
unfolding pick_tier mulberry32
pick_tier-Chosen k zero s retry r steps tier h e p = elim h [ ]
pick_tier-Chosen k (suc fuel) s retry r steps tier h e p =
    by_cards (tier_list r (select_tier (mulberry32 s).0)) refl
      (later k h e λ j h' e'. pick_tier-Chosen j fuel (mulberry32 s).1 true r _ tier h' e' p)
  where
    u : ℕ
    u = (mulberry32 s).0

    s' : ℕ
    s' = (mulberry32 s).1

    again : Result Picked
    again = pick_tier fuel s' true r (steps ++ tier_step u (select_tier u) true ∷ [])

    later :
        (k : ℕ)
        → k < suc fuel
        → (s + suc k * increment) % word_size ≡ state_of tier
        → ((j : ℕ)
            → j < fuel
            → (s' + suc j * increment) % word_size ≡ state_of tier
            → Chosen r again)
        → tier_list r (select_tier u) ≡ []
        → Chosen r again
    later zero h e ih q =
        let at : (mulberry32 s).1 ≡ state_of tier = omega arith in
        let same_tier : select_tier u ≡ tier =
          ap (λ a. select_tier (scramble a)) at ∙ state_of-selects tier in
        let empty : length (tier_list r tier) ≡ 0 =
          ap (λ t. length (tier_list r t)) (sym same_tier) ∙ ap length q in
        let no : 1 ≤ 0 = omega (arith, empty, p) in elim no [ ]
    later (suc k) h e ih q = ih k (omega arith) (omega arith)

    by_cards :
        (l : List CardId)
        → tier_list r (select_tier u) ≡ l
        → (tier_list r (select_tier u) ≡ [] → Chosen r again)
        → Chosen r (elim l [
          | [] ↦ again
          | c ∷ cs ↦ ok (record {
            tier = select_tier u;
            state = s';
            steps = steps ++ tier_step u (select_tier u) retry ∷ [];
          })
        ])
    by_cards [] q otherwise = otherwise q
    by_cards (c ∷ cs) q otherwise = record {
      picked = record {
        tier = select_tier u;
        state = s';
        steps = steps ++ tier_step u (select_tier u) retry ∷ [];
      };
      returned = refl;
      nonempty = omega (arith, ap length q);
    }

-- A draw from a tier with cards: one of them, and the others stay.
record Drew (r : Remaining) (res : Result (CardId × Remaining × ℕ × List SamplingStep))
    : Type 0 where
  pub card : CardId
  pub rest : Remaining
  pub state : ℕ
  pub steps : List SamplingStep
  pub returned : res ≡ ok (card, rest, state, steps)
  pub split : Perm (all_remaining r) (card ∷ all_remaining rest)
  pub size : total_remaining r ≡ suc (total_remaining rest)

draw_card-Drew :
    (r : Remaining) (p : Picked) → 0 < length (tier_list r p.tier) → Drew r (draw_card r p)
unfolding draw_card
draw_card-Drew r p h =
    let list = tier_list r p.tier in
    let u = (mulberry32 p.state).0 in
    let idx = index_of_roll u (length list) in
    let idx_lt = index_of_roll-lt u (length list) (mulberry32-lt p.state).0 h in
    let (c, e) = get_elem?-total list idx idx_lt in
    record {
      card = c;
      rest = set_tier r p.tier (erase_idx list idx);
      state = (mulberry32 p.state).1;
      steps = p.steps ++ card_step u idx c ∷ [];
      returned = rw (e, draw_card);
      split = set_tier-perm r p.tier idx c e;
      size = set_tier-size r p.tier idx idx_lt;
    }

some_tier :
    (r : Remaining) → 0 < total_remaining r → (tier : CardTier) × (0 < length (tier_list r tier))
some_tier r h = elim (Bool-cases (ltb 0 (length r.commons))) [
  | inl e ↦ (common, ltb→lt _ _ e)
  | inr e ↦ elim (Bool-cases (ltb 0 (length r.rares))) [
    | inl f ↦ (rare, ltb→lt _ _ f)
    | inr f ↦ (epic, ground arith)
  ]
]

-- The offer is complete: `n` cards, or all that remain, without repetition.
pub record Offered (n : ℕ) (r : Remaining) (cards : List CardId) (res : Result SamplingResult)
    : Type 0 where
  pub result : SamplingResult
  pub drawn : List CardId
  pub rest : Remaining
  pub returned : res ≡ ok result
  pub appended : result.cards ≡ cards ++ drawn
  pub split : Perm (all_remaining r) (drawn ++ all_remaining rest)
  pub size : length drawn ≡ min n (total_remaining r)

-- A first draw, and the draws behind it.
one_more :
    (n s : ℕ) (r : Remaining) (cards : List CardId) (steps : List SamplingStep)
    → nat_beq (total_remaining r) 0 ≡ false
    → (c : Chosen r (pick_tier retry_fuel s false r steps)) (w : Drew r (draw_card r c.picked))
    → Offered n w.rest
        (cards ++ w.card ∷ [])
        (draw_offer retry_fuel n w.state w.rest (cards ++ w.card ∷ []) w.steps)
    → Offered (suc n) r cards (draw_offer retry_fuel (suc n) s r cards steps)
unfolding draw_offer
one_more n s r cards steps e c w next = record {
  result = next.result;
  drawn = w.card ∷ next.drawn;
  rest = next.rest;
  returned = rw (e, c.returned, w.returned) next.returned;
  appended = next.appended ∙ append_assoc cards (w.card ∷ []) next.drawn;
  split = Perm.trans w.split (Perm.cons w.card next.split);
  size = omega (arith, next.size, w.size);
}

pub draw_offer-Offered :
    (n s : ℕ) (r : Remaining) (cards : List CardId) (steps : List SamplingStep)
    → Offered n r cards (draw_offer retry_fuel n s r cards steps)
unfolding draw_offer
draw_offer-Offered zero s r cards steps = record {
  result = record { cards = cards; steps = steps };
  drawn = [];
  rest = r;
  returned = refl;
  appended = sym (append-nil cards);
  split = Perm.refl _;
  size = omega arith;
}
draw_offer-Offered (suc n) s r cards steps = elim (Bool-cases (nat_beq (total_remaining r) 0)) [
  | inl e ↦ record {
    result = record { cards = cards; steps = steps };
    drawn = [];
    rest = r;
    returned = rw e;
    appended = sym (append-nil cards);
    split = Perm.refl _;
    size = ground arith;
  }
  | inr e ↦
      let (tier, h) = some_tier r (ground arith) in
      let (k, k_lt, at) = reaches s (state_of tier) (state_of-lt tier) in
      let chosen = pick_tier-Chosen k retry_fuel s false r steps tier k_lt at h in
      let drew = draw_card-Drew r chosen.picked chosen.nonempty in
      one_more n s r cards steps e chosen drew
        (draw_offer-Offered n drew.state drew.rest (cards ++ drew.card ∷ []) drew.steps)
]
