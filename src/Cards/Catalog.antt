-- ===== src/Cards/Catalog.antt =====
-- packages/shared/src/cards.ts: the catalog, its lookup, the canonical order of card ids, and the
-- class pools.
use the_arena_of.Prelude.{
  ℕ, suc, ◌+◌, ◌-◌, ◌*◌, Bool, true, false, ◌&&◌, List, [], ◌∷◌, ◌++◌, map, Option, none, some,
  if◌then◌else◌, ltb, leb, keep_if, take, drop, ◌==◌, list_eq, nat_eq, nat_beq, any_of,
}
use the_arena_of.Prelude.Sort.{sort}
use the_arena_of.Text.{Str, str_lt}
use the_arena_of.Cards.Defs.{
  ClassId, attack, defense, CardTier, common, rare, epic, CardId, cb1, cb2, cb3, cb4, cb5, cb6, cb7,
  cb8, tn1, tn2, tn3, tn4, tn5, tn6, tn7, tn8, tn9, tn10, card_text, card_beq, card_eq, negsuc,
  brain_fog, deep_read, timer_modify, option_disable_template, option_fake, option_lock,
  hint_reveal_template, delay_render, visual_overlay, semantic_flip, question_replay,
  shield_template, score_mult, hand_destroy_template, second_chance, CardDefinition,
}

abbrev pub attack_cards : List CardDefinition
attack_cards =
    record {
      id = cb1;
      class_id = attack;
      tier = common;
      name = "Time Freeze";
      description = "Reduce a target's answer window by 5s.";
      effect_template = timer_modify (negsuc 4999) 1;
      backfire_tenths = 1;
      cooldown_per_match = 1;
    }
    ∷ record {
      id = cb2;
      class_id = attack;
      tier = common;
      name = "Sabotage Q";
      description = "Delay a target's question render by 3s.";
      effect_template = delay_render 3000 1;
      backfire_tenths = 1;
      cooldown_per_match = 1;
    }
    ∷ record {
      id = cb3;
      class_id = attack;
      tier = common;
      name = "Burn Card";
      description = "Destroy 1 random card from the target's hand.";
      effect_template = hand_destroy_template 1;
      backfire_tenths = 1;
      cooldown_per_match = 1;
    }
    ∷ record {
      id = cb4;
      class_id = attack;
      tier = rare;
      name = "Question Lock";
      description = "Lock a target's options for 2s.";
      effect_template = option_lock 2000;
      backfire_tenths = 1;
      cooldown_per_match = 1;
    }
    ∷ record {
      id = cb5;
      class_id = attack;
      tier = rare;
      name = "Brain Fog";
      description = "Apply Brain Fog visual overlay for 5s.";
      effect_template = visual_overlay brain_fog 5000;
      backfire_tenths = 1;
      cooldown_per_match = 1;
    }
    ∷ record {
      id = cb6;
      class_id = attack;
      tier = common;
      name = "Fake Flag";
      description = "Show 1 fake flag option to a target for 8s.";
      effect_template = option_fake (1 ∷ []) 8000;
      backfire_tenths = 1;
      cooldown_per_match = 1;
    }
    ∷ record {
      id = cb7;
      class_id = attack;
      tier = common;
      name = "Question Flip";
      description = "Flip a target's question semantics for 10s.";
      effect_template = semantic_flip 10000;
      backfire_tenths = 1;
      cooldown_per_match = 1;
    }
    ∷ record {
      id = cb8;
      class_id = attack;
      tier = epic;
      name = "Mass Distraction";
      description = "Delay up to 3 targets' question render by 2s.";
      effect_template = delay_render 2000 3;
      backfire_tenths = 1;
      cooldown_per_match = 1;
    }
    ∷ []

abbrev pub defense_cards : List CardDefinition
defense_cards =
    record {
      id = tn1;
      class_id = defense;
      tier = common;
      name = "50:50";
      description = "Disable 2 random wrong options for the round.";
      effect_template = option_disable_template 2 20000;
      backfire_tenths = 0;
      cooldown_per_match = 1;
    }
    ∷ record {
      id = tn2;
      class_id = defense;
      tier = common;
      name = "Double Points";
      description = "Double your score for the next correct answer.";
      effect_template = score_mult 20;
      backfire_tenths = 0;
      cooldown_per_match = 1;
    }
    ∷ record {
      id = tn3;
      class_id = defense;
      tier = common;
      name = "Hint Reveal";
      description = "Reveal the first character of the correct answer.";
      effect_template = hint_reveal_template 1;
      backfire_tenths = 0;
      cooldown_per_match = 1;
    }
    ∷ record {
      id = tn4;
      class_id = defense;
      tier = rare;
      name = "Shield";
      description = "Block 1 incoming card for the next round.";
      effect_template = shield_template 1;
      backfire_tenths = 0;
      cooldown_per_match = 1;
    }
    ∷ record {
      id = tn5;
      class_id = defense;
      tier = common;
      name = "Time Bonus";
      description = "Add 5s to your per-question answer deadline.";
      effect_template = question_replay 5000;
      backfire_tenths = 0;
      cooldown_per_match = 1;
    }
    ∷ record {
      id = tn6;
      class_id = defense;
      tier = common;
      name = "Second Chance";
      description = "Allow yourself to re-submit before the deadline.";
      effect_template = second_chance;
      backfire_tenths = 0;
      cooldown_per_match = 1;
    }
    ∷ record {
      id = tn7;
      class_id = defense;
      tier = rare;
      name = "Deep Read";
      description = "Apply Deep Read visual overlay for 5s.";
      effect_template = visual_overlay deep_read 5000;
      backfire_tenths = 0;
      cooldown_per_match = 1;
    }
    ∷ record {
      id = tn8;
      class_id = defense;
      tier = common;
      name = "Time Bonus";
      description = "Add 5s to your per-question answer deadline.";
      effect_template = question_replay 5000;
      backfire_tenths = 0;
      cooldown_per_match = 1;
    }
    ∷ record {
      id = tn9;
      class_id = defense;
      tier = rare;
      name = "Brain Burst";
      description = "×1.5 score for the next correct answer.";
      effect_template = score_mult 15;
      backfire_tenths = 0;
      cooldown_per_match = 1;
    }
    ∷ record {
      id = tn10;
      class_id = defense;
      tier = epic;
      name = "Perfect Recall";
      description = "Disable 1 random wrong option for the round.";
      effect_template = option_disable_template 1 20000;
      backfire_tenths = 0;
      cooldown_per_match = 1;
    }
    ∷ []

abbrev pub card_catalog : List CardDefinition
card_catalog = attack_cards ++ defense_cards

find_definition : CardId → List CardDefinition → Option CardDefinition
find_definition id [] = none
find_definition id (d ∷ ds) = if d.id == id then some d else find_definition id ds

-- `none` stands for the error on an unknown id.
unfoldable pub get_card_definition : CardId → Option CardDefinition
unfolding find_definition card_beq
get_card_definition id = find_definition id card_catalog

-- An arbitrary string is looked up by the text of an id.
unfoldable pub has_card_definition : Str → Bool
has_card_definition id = any_of (λ d. card_text d.id == id) card_catalog

-- `id.indexOf("-")`.
index_of_dash : Str → ℕ
index_of_dash [] = 0
index_of_dash (c ∷ s) = let rest = index_of_dash s in if nat_beq c 45 then 0 else suc rest

-- `Number.parseInt(s, 10)` of digits.
parse_digits : ℕ → Str → ℕ
parse_digits n [] = n
parse_digits n (c ∷ s) = if leb 48 c && leb c 57 then parse_digits (n * 10 + (c - 48)) s else n

abbrev prefix_of : CardId → Str
prefix_of c = take (index_of_dash (card_text c)) (card_text c)

abbrev suffix_of : CardId → ℕ
suffix_of c = parse_digits 0 (drop (index_of_dash (card_text c) + 1) (card_text c))

-- `compareCardId(a, b) < 0`.
unfoldable pub compare_card_id : CardId → CardId → Bool
unfolding index_of_dash parse_digits str_lt
compare_card_id a b =
    if prefix_of a == prefix_of b
    then ltb (suffix_of a) (suffix_of b)
    else str_lt (prefix_of a) (prefix_of b)

abbrev is_class : ClassId → ClassId → Bool
is_class attack attack = true
is_class defense defense = true
is_class _ _ = false

abbrev pub is_tier : CardTier → CardTier → Bool
is_tier common common = true
is_tier rare rare = true
is_tier epic epic = true
is_tier _ _ = false

unfoldable pub get_class_pool : ClassId → List CardId
unfolding compare_card_id sort
get_class_pool class =
    sort compare_card_id (map (λ d. d.id) (keep_if (λ d. is_class d.class_id class) card_catalog))
