-- ===== src/Rules/Classes.antt =====
-- packages/game-core/src/class-engine.ts.
pub mod Balance
use the_arena_of.Prelude.{ℕ, Bool, true, not, List, [], ◌∷◌, if◌then◌else◌}
use the_arena_of.Prelude.Sort.{by_key, same, sort}
use the_arena_of.Prng.{derive_substream, rolls}
use the_arena_of.Text.{Str, lit, str_lt}
use the_arena_of.Cards.Defs.{ClassId, attack, defense}

-- Attack and defense in turn, by rank; `even` says whether the rank is even.
unfoldable pub alternate : Bool → List (Str × ℕ) → List (Str × ClassId)
alternate even [] = []
alternate even ((id, roll) ∷ ps) = (id, if even then attack else defense) ∷ alternate (not even) ps

-- An empty list of players gives an empty assignment in the source's first line, and here.
unfoldable pub assign_classes : List Str → Str → List (Str × ClassId)
unfolding alternate
assign_classes player_ids seed = alternate true (
    sort (by_key (λ (p : Str × ℕ). p.1) same)
      (rolls (derive_substream seed (lit "class")) (sort str_lt player_ids)))
