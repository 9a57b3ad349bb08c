-- ===== src/Cards/Engine/Sampling.antt =====
-- The whole of `sampleOffer` of packages/game-core/src/card-engine.ts: from a pool to an offer.
use the_arena_of.Prelude.{
  ◌+◌, ◌≡◌, refl, sym, ap, subst, ◌∙◌, List, [], ◌∷◌, ◌++◌, some, map, keep_if, length, length-map,
  min, Perm, arith,
}
use mathlib.Core.List.{perm_middle}
use mathlib.Core.List.Perm
use the_arena_of.Prelude.Sort.{sort, sort-perm, length-sort}
use the_arena_of.Errors.{ok}
use the_arena_of.Prng.{derive_substream}
use the_arena_of.Text.{Str, lit}
use the_arena_of.Cards.Defs.{
  ClassId, CardTier, common, rare, epic, CardId, CardDefinition, cb1, cb2, cb3, cb4, cb5, cb6, cb7,
  cb8, tn1, tn2, tn3, tn4, tn5, tn6, tn7, tn8, tn9, tn10,
}
use the_arena_of.Cards.Catalog.{get_card_definition, compare_card_id, is_tier}
use the_arena_of.Cards.Engine.{
  SamplingResult, total_remaining, definitions_of, pool_of_tier, remaining_of, class_text,
  sample_offer, sample_offer_count,
}
use the_arena_of.Cards.Engine.Offers.{all_remaining, draw_offer-Offered}

-- The catalog defines every card.
pub get_card_definition-total :
    (c : CardId) → (d : CardDefinition) × (get_card_definition c ≡ some d) × (d.id ≡ c)
unfolding get_card_definition
get_card_definition-total cb1 = (_, refl, refl)
get_card_definition-total cb2 = (_, refl, refl)
get_card_definition-total cb3 = (_, refl, refl)
get_card_definition-total cb4 = (_, refl, refl)
get_card_definition-total cb5 = (_, refl, refl)
get_card_definition-total cb6 = (_, refl, refl)
get_card_definition-total cb7 = (_, refl, refl)
get_card_definition-total cb8 = (_, refl, refl)
get_card_definition-total tn1 = (_, refl, refl)
get_card_definition-total tn2 = (_, refl, refl)
get_card_definition-total tn3 = (_, refl, refl)
get_card_definition-total tn4 = (_, refl, refl)
get_card_definition-total tn5 = (_, refl, refl)
get_card_definition-total tn6 = (_, refl, refl)
get_card_definition-total tn7 = (_, refl, refl)
get_card_definition-total tn8 = (_, refl, refl)
get_card_definition-total tn9 = (_, refl, refl)
get_card_definition-total tn10 = (_, refl, refl)

abbrev ids_of : List CardDefinition → List CardId
ids_of ds = map (λ d. d.id) ds

definitions_of-ok :
    (pool : List CardId)
    → (ds : List CardDefinition) × (definitions_of pool ≡ ok ds) × (ids_of ds ≡ pool)
unfolding definitions_of
definitions_of-ok [] = ([], refl, refl)
definitions_of-ok (c ∷ cs) =
    let (d, e, same_id) = get_card_definition-total c in
    let (ds, f, same_ids) = definitions_of-ok cs in
    (d ∷ ds, rw (e, definitions_of) (rw f refl), rw (same_id, same_ids))

abbrev tier_ids : CardTier → List CardDefinition → List CardId
tier_ids tier ds = ids_of (keep_if (λ d. is_tier d.tier tier) ds)

-- The tiers split a list of definitions.
abbrev Tiered : List CardDefinition → Type 0
Tiered ds =
    Perm (ids_of ds) (tier_ids common ds ++ (tier_ids rare ds ++ tier_ids epic ds))
    × (length ds
        ≡ length (tier_ids common ds) + length (tier_ids rare ds) + length (tier_ids epic ds))

tiers-split : (ds : List CardDefinition) → Tiered ds
tiers-split [] = (Perm.refl [], refl)
tiers-split (d ∷ ds) = by_tier d.tier refl (tiers-split ds)
  where
    by_tier : (tier : CardTier) → d.tier ≡ tier → Tiered ds → Tiered (d ∷ ds)
    by_tier common e (h, n) = (rw e (Perm.cons d.id h), rw e (omega (arith, n)))
    by_tier rare e (h, n) = (
      rw e (Perm.trans (Perm.cons d.id h) (Perm.symm (perm_middle (tier_ids common ds) _))),
      rw e (omega (arith, n)),
    )
    by_tier epic e (h, n) = (
      rw e (
          Perm.trans (Perm.cons d.id h) (
            Perm.trans (Perm.symm (perm_middle (tier_ids common ds) _)) (
              Perm.append_left (tier_ids common ds)
                (Perm.symm (perm_middle (tier_ids rare ds) _))))),
      rw e (omega (arith, n)),
    )

remaining_of-size : (ds : List CardDefinition) → total_remaining (remaining_of ds) ≡ length ds
unfolding remaining_of pool_of_tier
remaining_of-size ds = omega (
  arith,
  (tiers-split ds).1,
  length-sort compare_card_id (tier_ids common ds),
  length-sort compare_card_id (tier_ids rare ds),
  length-sort compare_card_id (tier_ids epic ds),
)

remaining_of-perm : (ds : List CardDefinition) → Perm (ids_of ds) (all_remaining (remaining_of ds))
unfolding remaining_of pool_of_tier
remaining_of-perm ds =
    Perm.trans (tiers-split ds).0
      (Perm.append (sorted common) (Perm.append (sorted rare) (sorted epic)))
  where
    sorted : (tier : CardTier) → Perm (tier_ids tier ds) (sort compare_card_id (tier_ids tier ds))
    sorted tier = Perm.symm (sort-perm compare_card_id (tier_ids tier ds))

-- From any pool and seed `sampleOffer` returns an offer within the model's fuel. The offer has three
-- cards, or as many as the pool has where it has fewer, and with the cards not drawn it makes up the
-- pool, each card as often as it stands there.
pub sample_offer-total :
    (class : ClassId) (seed : Str) (pool : List CardId)
    → (d : SamplingResult) × (rest : List CardId) × (sample_offer class seed pool ≡ ok d)
      × Perm pool (d.cards ++ rest)
      × (length d.cards ≡ min 3 (length pool))
unfolding sample_offer
sample_offer-total class seed pool =
    let (ds, e, same_ids) = definitions_of-ok pool in
    let o =
      draw_offer-Offered sample_offer_count
        (derive_substream seed (lit "card|" ++ class_text class)) (remaining_of ds) [] [] in
    (
      o.result,
      all_remaining o.rest,
      rw e o.returned,
      subst (λ cs. Perm pool (cs ++ all_remaining o.rest)) (sym o.appended)
          (subst (λ cs. Perm cs (o.drawn ++ all_remaining o.rest)) same_ids
            (Perm.trans (remaining_of-perm ds) o.split)),
      ap length o.appended
          ∙ (o.size
              ∙ ap (min 3)
                  (remaining_of-size ds ∙ (sym (length-map (λ d. d.id) ds) ∙ ap length same_ids))),
    )
