-- ===== src/Cards/Defs.antt =====
-- packages/shared/src/cards.ts and classes.ts: the types of the card catalog. Fractions with one
-- decimal (`factor`, `backfireRate`) are carried in tenths.
use Prim.Native.String.{String}
use the_arena_of.Prelude.{
  Eq, ◌↔◌, ℕ, ◌≡◌, refl, sym, ap, ◌∙◌, Bool, true, List, if◌then◌else◌, nat_beq, nat_beq_iff,
}
use the_arena_of.Text.{Str, lit}

pub data ClassId : Type 0 where
  attack defense : ClassId

pub data CardTier : Type 0 where
  common rare epic : CardTier

pub data CardId : Type 0 where
  cb1 cb2 cb3 cb4 cb5 cb6 cb7 cb8 tn1 tn2 tn3 tn4 tn5 tn6 tn7 tn8 tn9 tn10 : CardId

abbrev pub card_text : CardId → Str
card_text cb1 = lit "CB-1"
card_text cb2 = lit "CB-2"
card_text cb3 = lit "CB-3"
card_text cb4 = lit "CB-4"
card_text cb5 = lit "CB-5"
card_text cb6 = lit "CB-6"
card_text cb7 = lit "CB-7"
card_text cb8 = lit "CB-8"
card_text tn1 = lit "TN-1"
card_text tn2 = lit "TN-2"
card_text tn3 = lit "TN-3"
card_text tn4 = lit "TN-4"
card_text tn5 = lit "TN-5"
card_text tn6 = lit "TN-6"
card_text tn7 = lit "TN-7"
card_text tn8 = lit "TN-8"
card_text tn9 = lit "TN-9"
card_text tn10 = lit "TN-10"

card_index : CardId → ℕ
card_index cb1 = 0
card_index cb2 = 1
card_index cb3 = 2
card_index cb4 = 3
card_index cb5 = 4
card_index cb6 = 5
card_index cb7 = 6
card_index cb8 = 7
card_index tn1 = 8
card_index tn2 = 9
card_index tn3 = 10
card_index tn4 = 11
card_index tn5 = 12
card_index tn6 = 13
card_index tn7 = 14
card_index tn8 = 15
card_index tn9 = 16
card_index tn10 = 17

card_of : ℕ → CardId
card_of n =
    if nat_beq n 0
    then cb1
    else if nat_beq n 1
    then cb2
    else if nat_beq n 2
    then cb3
    else if nat_beq n 3
    then cb4
    else if nat_beq n 4
    then cb5
    else if nat_beq n 5
    then cb6
    else if nat_beq n 6
    then cb7
    else if nat_beq n 7
    then cb8
    else if nat_beq n 8
    then tn1
    else if nat_beq n 9
    then tn2
    else if nat_beq n 10
    then tn3
    else if nat_beq n 11
    then tn4
    else if nat_beq n 12
    then tn5
    else if nat_beq n 13
    then tn6
    else if nat_beq n 14
    then tn7
    else if nat_beq n 15
    then tn8
    else if nat_beq n 16
    then tn9
    else tn10

card_of-index : (c : CardId) → card_of (card_index c) ≡ c
unfolding card_of card_index
card_of-index cb1 = refl
card_of-index cb2 = refl
card_of-index cb3 = refl
card_of-index cb4 = refl
card_of-index cb5 = refl
card_of-index cb6 = refl
card_of-index cb7 = refl
card_of-index cb8 = refl
card_of-index tn1 = refl
card_of-index tn2 = refl
card_of-index tn3 = refl
card_of-index tn4 = refl
card_of-index tn5 = refl
card_of-index tn6 = refl
card_of-index tn7 = refl
card_of-index tn8 = refl
card_of-index tn9 = refl
card_of-index tn10 = refl

unfoldable pub card_beq : CardId → CardId → Bool
unfolding card_index
card_beq a b = nat_beq (card_index a) (card_index b)

pub card_beq_iff : (a b : CardId) → (card_beq a b ≡ true) ↔ (a ≡ b)
unfolding card_beq
card_beq_iff a b = (
  λ h. sym (card_of-index a) ∙ ap card_of ((nat_beq_iff _ _).0 h) ∙ card_of-index b,
  λ p. (nat_beq_iff _ _).1 (ap card_index p),
)

instance abbrev pub card_eq : Eq CardId
card_eq = record { beq = card_beq; beq_iff = card_beq_iff }

pub data ℤ : Type 0 where
  pos : ℕ → ℤ
  negsuc : ℕ → ℤ

pub data OverlayFlag : Type 0 where
  brain_fog deep_read : OverlayFlag

-- `selectionPolicy` and `revealDescriptor` have one value each, and are left out.
pub data CardEffectTemplate : Type 0 where
  timer_modify : ℤ → ℕ → CardEffectTemplate
  option_disable_template : ℕ → ℕ → CardEffectTemplate
  option_fake : List ℕ → ℕ → CardEffectTemplate
  option_lock : ℕ → CardEffectTemplate
  hint_reveal_template : ℕ → CardEffectTemplate
  delay_render : ℕ → ℕ → CardEffectTemplate
  visual_overlay : OverlayFlag → ℕ → CardEffectTemplate
  semantic_flip : ℕ → CardEffectTemplate
  question_replay : ℕ → CardEffectTemplate
  shield_template : ℕ → CardEffectTemplate
  score_mult : ℕ → CardEffectTemplate
  hand_destroy_template : ℕ → CardEffectTemplate
  second_chance : CardEffectTemplate

-- In the order of the source's fields.
pub data CardEffect : Type 0 where
  timer_modify : ℤ → ℕ → CardEffect
  option_disable : List ℕ → ℕ → ℕ → ℕ → CardEffect
  option_fake : List ℕ → ℕ → CardEffect
  option_lock : ℕ → CardEffect
  hint_reveal : Str → CardEffect
  delay_render : ℕ → ℕ → CardEffect
  visual_overlay : OverlayFlag → ℕ → CardEffect
  semantic_flip : ℕ → CardEffect
  question_replay : ℕ → CardEffect
  shield : ℕ → CardEffect
  score_mult : ℕ → CardEffect
  hand_destroy : ℕ → ℕ → List CardId → CardEffect
  second_chance : CardEffect

pub record CardDefinition : Type 0 where
  pub id : CardId
  pub class_id : ClassId
  pub tier : CardTier
  pub name : String
  pub description : String
  pub effect_template : CardEffectTemplate
  pub backfire_tenths : ℕ
  pub cooldown_per_match : ℕ
