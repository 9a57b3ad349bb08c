-- ===== src/Cards/Engine.antt =====
-- packages/game-core/src/card-engine.ts. A float is its numerator over 2 ^ 32: `Math.floor(u * n)` is
-- `u * n / 2 ^ 32`, and the tier weights 0.6 and 0.9 are compared in tenths.
pub mod Offers
pub mod Sampling
pub mod Picks
use the_arena_of.Prelude.{
  ℕ, zero, suc, ◌+◌, ◌*◌, ◌/◌, Bool, true, false, List, [], ◌∷◌, ◌++◌, Option, none, some,
  if◌then◌else◌, ltb, nat_beq, length, take, get_elem?, erase_idx, min, map, keep_if, ◌==◌, list_eq,
  nat_eq,
}
use the_arena_of.Prelude.Sort.{sort}
use the_arena_of.Text.{Str, lit}
use the_arena_of.Prng.Sha256.{word_size}
use the_arena_of.Prng.{derive_substream, mulberry32}
use the_arena_of.Errors.{
  Result, ok, err, ◌>>=◌, unknown_card, template_mismatch, missing_context, answer_not_in_options,
  pool_drained, out_of_fuel,
}
use the_arena_of.Cards.Defs.{
  ClassId, attack, defense, CardTier, common, rare, epic, CardId, CardEffectTemplate, CardEffect,
  CardDefinition,
}
use the_arena_of.Cards.Catalog.{get_card_definition, compare_card_id, is_tier}

unfoldable pub select_tier : ℕ → CardTier
select_tier u =
    if ltb (u * 10) (6 * word_size)
    then common
    else if ltb (u * 10) (9 * word_size)
    then rare
    else epic

pub data SamplingStep : Type 0 where
  tier_step : ℕ → CardTier → Bool → SamplingStep
  card_step : ℕ → ℕ → CardId → SamplingStep

pub record SamplingResult : Type 0 where
  pub cards : List CardId
  pub steps : List SamplingStep

-- The `Map` from a tier to the cards that remain of it; all three keys are there from the start.
pub record Remaining : Type 0 where
  pub commons : List CardId
  pub rares : List CardId
  pub epics : List CardId

abbrev pub tier_list : Remaining → CardTier → List CardId
tier_list r common = r.commons
tier_list r rare = r.rares
tier_list r epic = r.epics

abbrev pub set_tier : Remaining → CardTier → List CardId → Remaining
set_tier r common l = record r { commons = l }
set_tier r rare l = record r { rares = l }
set_tier r epic l = record r { epics = l }

abbrev pub total_remaining : Remaining → ℕ
total_remaining r = length r.commons + length r.rares + length r.epics

-- `poolIds.map(getCardDefinition)`, which throws on an unknown id.
unfoldable pub definitions_of : List CardId → Result (List CardDefinition)
definitions_of [] = ok []
definitions_of (c ∷ cs) = elim (get_card_definition c) [
  | none ↦ err unknown_card
  | some d ↦ definitions_of cs >>= λ ds. ok (d ∷ ds)
]

unfoldable pub pool_of_tier : CardTier → List CardDefinition → List CardId
pool_of_tier tier ds =
    sort compare_card_id (map (λ d. d.id) (keep_if (λ d. is_tier d.tier tier) ds))

unfoldable pub remaining_of : List CardDefinition → Remaining
unfolding pool_of_tier
remaining_of ds = record {
  commons = pool_of_tier common ds;
  rares = pool_of_tier rare ds;
  epics = pool_of_tier epic ds;
}

pub record Picked : Type 0 where
  pub tier : CardTier
  pub state : ℕ
  pub steps : List SamplingStep

-- The inner `while (true)`: draw a tier until one has cards left.
unfoldable pub pick_tier : ℕ → ℕ → Bool → Remaining → List SamplingStep → Result Picked
pick_tier zero s retry r steps = err out_of_fuel
pick_tier (suc fuel) s retry r steps =
    let u = (mulberry32 s).0 in
    let s' = (mulberry32 s).1 in
    let again = pick_tier fuel s' true r (steps ++ tier_step u (select_tier u) true ∷ []) in
    elim (tier_list r (select_tier u)) [
      | [] ↦ again
      | c ∷ cs ↦ ok (record {
        tier = select_tier u;
        state = s';
        steps = steps ++ tier_step u (select_tier u) retry ∷ [];
      })
    ]

-- `Math.floor(u * list.length)`.
abbrev pub index_of_roll : ℕ → ℕ → ℕ
index_of_roll u n = u * n / word_size

-- The rest of a draw, once the tier is chosen: the card, and what remains.
unfoldable pub draw_card : Remaining → Picked → Result (CardId × Remaining × ℕ × List SamplingStep)
draw_card r p =
    let list = tier_list r p.tier in
    let u = (mulberry32 p.state).0 in
    let idx = index_of_roll u (length list) in
    elim (get_elem? list idx) [
      | none ↦ err pool_drained
      | some c ↦ ok (
        c,
        set_tier r p.tier (erase_idx list idx),
        (mulberry32 p.state).1,
        p.steps ++ card_step u idx c ∷ [],
      )
    ]

-- The outer loop, with the number of draws left.
unfoldable pub draw_offer :
    ℕ → ℕ → ℕ → Remaining → List CardId → List SamplingStep → Result SamplingResult
draw_offer fuel zero s r cards steps = ok (record { cards = cards; steps = steps })
draw_offer fuel (suc n) s r cards steps =
    let next = pick_tier fuel s false r steps >>= λ p.
    draw_card r p >>= λ (c, r', s', steps'). draw_offer fuel n s' r' (cards ++ c ∷ []) steps' in
    if nat_beq (total_remaining r) 0 then ok (record { cards = cards; steps = steps }) else next

abbrev pub sample_offer_count : ℕ
sample_offer_count = 3

-- Draws of a tier float before the model gives up; the generator meets every tier within them.
abbrev pub retry_fuel : ℕ
retry_fuel = word_size

abbrev pub class_text : ClassId → Str
class_text attack = lit "ATTACK"
class_text defense = lit "DEFENSE"

-- `sampleOffer` with a pool; `get_class_pool` is the default.
unfoldable pub sample_offer : ClassId → Str → List CardId → Result SamplingResult
unfolding definitions_of remaining_of pick_tier draw_card draw_offer
sample_offer class seed pool = definitions_of pool >>= λ ds.
    draw_offer retry_fuel sample_offer_count
      (derive_substream seed (lit "card|" ++ class_text class)) (remaining_of ds) [] []

-- `options.indexOf(correctAnswer)`.
index_of : Str → List Str → Option ℕ
index_of a [] = none
index_of a (o ∷ os) =
    let rest = index_of a os in
    if o == a then some 0 else elim rest [ none ↦ none | some i ↦ some (suc i) ]

unfoldable pub correct_option_index : List Str → Str → Result ℕ
unfolding index_of
correct_option_index options answer = elim (index_of answer options) [
  | none ↦ err answer_not_in_options
  | some i ↦ ok i
]

unfoldable pub wrong_indexes : ℕ → Str → List Str → List ℕ
wrong_indexes i answer [] = []
wrong_indexes i answer (o ∷ os) =
    let rest = wrong_indexes (suc i) answer os in if o == answer then rest else i ∷ rest

-- A generator: from a state, the float's numerator and the next state.
abbrev pub Rng : Type 0
Rng = ℕ → ℕ × ℕ

-- The loop of `resolveOptionDisable` and `resolveHandDestroy`: `count` picks without replacement.
-- It returns the picks, what is left, and the generator's state.
unfoldable pub pick_each {ℓ} :
    {A : Type ℓ} → Rng → ℕ → ℕ → List A → List A → Result (List A × List A × ℕ)
pick_each rng zero s remaining picked = ok (picked, remaining, s)
pick_each rng (suc n) s remaining picked =
    let idx = index_of_roll (rng s).0 (length remaining) in
    elim (get_elem? remaining idx) [
      | none ↦ err pool_drained
      | some a ↦ pick_each rng n (rng s).1 (erase_idx remaining idx) (picked ++ a ∷ [])
    ]

unfoldable pub resolve_option_disable : Rng → ℕ → ℕ → ℕ → List Str → Str → Result (CardEffect × ℕ)
unfolding wrong_indexes pick_each
resolve_option_disable rng s count duration options answer =
    let wrong = wrong_indexes 0 answer options in
    pick_each rng (min count (length wrong)) s wrong [] >>= λ (picked, rest, s').
    ok (CardEffect.option_disable picked count (length wrong) duration, s')

unfoldable pub resolve_hand_destroy : Rng → ℕ → ℕ → List CardId → Result (CardEffect × ℕ)
unfolding pick_each
resolve_hand_destroy rng s count hand =
    let sorted = sort compare_card_id hand in
    pick_each rng (min count (length sorted)) s sorted [] >>= λ (destroyed, rest, s').
    ok (CardEffect.hand_destroy count (length sorted) destroyed, s')

pub record Context : Type 0 where
  pub target_hand : Option (List CardId)
  pub options : Option (List Str)
  pub correct_answer : Option Str
  pub current_round_no : Option ℕ

-- The discriminator `kind` of a template, numbered.
abbrev kind_of : CardEffectTemplate → ℕ
kind_of (CardEffectTemplate.timer_modify d n) = 0
kind_of (CardEffectTemplate.option_disable_template c d) = 1
kind_of (CardEffectTemplate.option_fake i d) = 2
kind_of (CardEffectTemplate.option_lock d) = 3
kind_of (CardEffectTemplate.hint_reveal_template c) = 4
kind_of (CardEffectTemplate.delay_render d n) = 5
kind_of (CardEffectTemplate.visual_overlay f d) = 6
kind_of (CardEffectTemplate.semantic_flip d) = 7
kind_of (CardEffectTemplate.question_replay d) = 8
kind_of (CardEffectTemplate.shield_template o) = 9
kind_of (CardEffectTemplate.score_mult f) = 10
kind_of (CardEffectTemplate.hand_destroy_template c) = 11
kind_of CardEffectTemplate.second_chance = 12

-- The `switch` of `resolveCardEffect`.
resolve_template : CardEffectTemplate → Rng → ℕ → Context → Result (CardEffect × ℕ)
unfolding resolve_option_disable resolve_hand_destroy
resolve_template (CardEffectTemplate.option_disable_template c d) rng s ctx = elim ctx.options [
  | none ↦ err missing_context
  | some os ↦ elim ctx.correct_answer [
    | none ↦ err missing_context
    | some a ↦ resolve_option_disable rng s c d os a
  ]
]
resolve_template (CardEffectTemplate.hand_destroy_template c) rng s ctx = elim ctx.target_hand [
  | none ↦ err missing_context
  | some h ↦ resolve_hand_destroy rng s c h
]
resolve_template (CardEffectTemplate.timer_modify d n) rng s ctx =
    ok (CardEffect.timer_modify d n, s)
resolve_template (CardEffectTemplate.option_fake i d) rng s ctx = ok (CardEffect.option_fake i d, s)
resolve_template (CardEffectTemplate.option_lock d) rng s ctx = ok (CardEffect.option_lock d, s)
resolve_template (CardEffectTemplate.hint_reveal_template c) rng s ctx = elim ctx.correct_answer [
  | none ↦ err missing_context
  | some a ↦ ok (CardEffect.hint_reveal (take c a), s)
]
resolve_template (CardEffectTemplate.delay_render d n) rng s ctx =
    ok (CardEffect.delay_render d n, s)
resolve_template (CardEffectTemplate.visual_overlay f d) rng s ctx =
    ok (CardEffect.visual_overlay f d, s)
resolve_template (CardEffectTemplate.semantic_flip d) rng s ctx = ok (CardEffect.semantic_flip d, s)
resolve_template (CardEffectTemplate.question_replay d) rng s ctx =
    ok (CardEffect.question_replay d, s)
resolve_template (CardEffectTemplate.shield_template o) rng s ctx = elim ctx.current_round_no [
  | none ↦ err missing_context
  | some n ↦ ok (CardEffect.shield (n + o), s)
]
resolve_template (CardEffectTemplate.score_mult f) rng s ctx = ok (CardEffect.score_mult f, s)
resolve_template CardEffectTemplate.second_chance rng s ctx = ok (CardEffect.second_chance, s)

unfoldable pub resolve_card_effect :
    CardId → CardEffectTemplate → Rng → ℕ → Context → Result (CardEffect × ℕ)
unfolding resolve_template
resolve_card_effect card template rng s ctx = elim (get_card_definition card) [
  | none ↦ err unknown_card
  | some d ↦
      if nat_beq (kind_of d.effect_template) (kind_of template)
      then resolve_template template rng s ctx
      else err template_mismatch
]
