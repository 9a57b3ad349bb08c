-- ===== src/Rules/TieBreak.antt =====
-- packages/game-core/src/tie-break.ts.
pub mod Best
use the_arena_of.Prelude.{ℕ, Bool, List, [], ◌∷◌, Option, none, some, keep_if, list_eq, nat_eq}
use the_arena_of.Prelude.Dict.{Dict, get, set, has, or_else}
use the_arena_of.Prelude.Sort.{by_key, by_key_desc, sort}
use the_arena_of.Prng.{hash_string_to_seed, mulberry32}
use the_arena_of.Text.{Str, str_lt}
use the_arena_of.Match.State.{PlayerInfo}

-- The loop that gives each player a roll, in the order of the ids.
unfoldable pub roll_offsets : ℕ → List Str → Dict Str ℕ → Dict Str ℕ
roll_offsets s [] m = m
roll_offsets s (id ∷ ids) m = roll_offsets (mulberry32 s).1 ids (set m id (mulberry32 s).0)

-- The statistics that the comparison reads; every compared id is in the map.
abbrev pub time_of : Dict Str PlayerInfo → Str → ℕ
time_of players id = elim (get players id) [ none ↦ 0 | some p ↦ p.total_response_time_ms ]

abbrev pub correct_of : Dict Str PlayerInfo → Str → ℕ
correct_of players id = elim (get players id) [ none ↦ 0 | some p ↦ p.correct_answers ]

-- `compare(a, b) < 0`: less time, then more correct answers, then the roll, then the id.
unfoldable pub beats : Dict Str PlayerInfo → Dict Str ℕ → Str → Str → Bool
beats players offsets =
    by_key (time_of players)
      (by_key_desc (correct_of players) (by_key (λ id. or_else (get offsets id) 0) str_lt))

abbrev pub head? {ℓ} : {A : Type ℓ} → List A → Option A
head? [] = none
head? (x ∷ xs) = some x

abbrev pub known_ids : Dict Str PlayerInfo → List Str → List Str
known_ids players ids = keep_if (λ id. has players id) ids

unfoldable pub resolve_tie_break : List Str → Dict Str PlayerInfo → Str → Option Str
unfolding beats roll_offsets
resolve_tie_break player_ids players match_id =
    let ids = known_ids players player_ids in
    head? (sort (beats players (roll_offsets (hash_string_to_seed match_id) ids [])) ids)
