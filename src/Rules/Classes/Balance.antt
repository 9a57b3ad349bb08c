-- ===== src/Rules/Classes/Balance.antt =====
-- What the class assignment of packages/game-core/src/class-engine.ts promises.
use the_arena_of.Prelude.{
  ℕ, suc, ◌*◌, ◌≤◌, ◌≡◌, refl, sym, ap, subst, Bool, true, false, not, List, [], ◌∷◌, map, length,
  Perm, arith, keep_if,
}
use mathlib.Core.List.Perm
use the_arena_of.Prelude.Sort.{sort, sort-perm, length-sort, same, by_key}
use the_arena_of.Prng.{derive_substream, mulberry32, rolls}
use the_arena_of.Text.{Str, lit, str_lt}
use the_arena_of.Cards.Defs.{ClassId, attack, defense}
use the_arena_of.Rules.Classes.{alternate, assign_classes}

abbrev is_attack : Str × ClassId → Bool
is_attack (id, attack) = true
is_attack (id, defense) = false

abbrev pub attackers : List (Str × ClassId) → ℕ
attackers xs = length (keep_if is_attack xs)

map-alternate :
    (even : Bool) (ps : List (Str × ℕ)) → map (λ p. p.0) (alternate even ps) ≡ map (λ p. p.0) ps
unfolding alternate
map-alternate even [] = refl
map-alternate even ((id, u) ∷ ps) = ap (id ∷◌) (map-alternate (not even) ps)

map-rolls : (s : ℕ) (ids : List Str) → map (λ (p : Str × ℕ). p.0) (rolls s ids) ≡ ids
unfolding rolls
map-rolls s [] = refl
map-rolls s (id ∷ ids) = ap (id ∷◌) (map-rolls (mulberry32 s).1 ids)

length-rolls : (s : ℕ) (ids : List Str) → length (rolls s ids) ≡ length ids
unfolding rolls
length-rolls s [] = refl
length-rolls s (id ∷ ids) = ap suc (length-rolls (mulberry32 s).1 ids)

half :
    (ps : List (Str × ℕ))
    → (length ps ≤ 2 * attackers (alternate true ps))
      × (2 * attackers (alternate true ps) ≤ suc (length ps))
unfolding alternate
half [] = (omega arith, omega arith)
half (p ∷ []) = (omega arith, omega arith)
half (p ∷ q ∷ ps) = let h = half ps in (omega (arith, h.0), omega (arith, h.1))

-- Every player gets one class, and of n players ⌈n / 2⌉ attack and the others defend.
pub assign_classes-balance :
    (ids : List Str) (seed : Str)
    → Perm (map (λ p. p.0) (assign_classes ids seed)) ids
      × (length ids ≤ 2 * attackers (assign_classes ids seed))
      × (2 * attackers (assign_classes ids seed) ≤ suc (length ids))
unfolding assign_classes
assign_classes-balance ids seed =
    let order = by_key (λ (p : Str × ℕ). p.1) same in
    let drawn = rolls (derive_substream seed (lit "class")) (sort str_lt ids) in
    let h = half (sort order drawn) in
    let size : length (sort order drawn) ≡ length ids =
      omega (
        arith,
        length-sort order drawn,
        length-rolls _ (sort str_lt ids),
        length-sort str_lt ids,
      ) in
    (
      subst (λ xs. Perm xs ids) (sym (map-alternate true (sort order drawn)))
          (Perm.trans (Perm.map (λ (p : Str × ℕ). p.0) (sort-perm order drawn)) (
            subst (λ xs. Perm xs ids) (sym (map-rolls _ (sort str_lt ids)))
              (sort-perm str_lt ids))),
      omega (arith, h.0, size),
      omega (arith, h.1, size),
    )
