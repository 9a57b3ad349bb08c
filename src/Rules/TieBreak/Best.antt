-- ===== src/Rules/TieBreak/Best.antt =====
-- What the tie-break of packages/game-core/src/tie-break.ts promises.
use the_arena_of.Prelude.{
  length, ℕ, ◌≤◌, ◌≡◌, refl, subst, true, false, List, [], ◌∷◌, none, some, arith, All, All-map,
  All-both, All-keep_if, All-keep_if_self, All-includes, includes, list_eq, nat_eq,
}
use the_arena_of.Prelude.Dict.{Dict, get, has, or_else}
use the_arena_of.Prelude.Sort.{
  length-sort, IsOrder, by_key-IsOrder, by_key_desc-IsOrder, sort, sort-IsLeast, All-sort,
}
use the_arena_of.Prng.{hash_string_to_seed}
use the_arena_of.Text.{Str, str_lt-IsOrder}
use the_arena_of.Match.State.{PlayerInfo}
use the_arena_of.Rules.TieBreak.{
  roll_offsets, beats, time_of, correct_of, head?, known_ids, resolve_tie_break,
}

beats-IsOrder :
    (players : Dict Str PlayerInfo) (offsets : Dict Str ℕ) → IsOrder (beats players offsets)
unfolding beats
beats-IsOrder players offsets = by_key-IsOrder (time_of players) _ (
    by_key_desc-IsOrder (correct_of players) _
      (by_key-IsOrder (λ id. or_else (get offsets id) 0) _ str_lt-IsOrder))

-- No slower than the other, and of two equally fast ones no fewer correct answers.
abbrev pub NoWorse : Dict Str PlayerInfo → Str → Str → Type 0
NoWorse players w id =
    (time_of players w ≤ time_of players id)
    × (time_of players id ≡ time_of players w → correct_of players id ≤ correct_of players w)

not-beats :
    (players : Dict Str PlayerInfo) (offsets : Dict Str ℕ) (w id : Str)
    → beats players offsets id w ≡ false
    → NoWorse players w id
unfolding beats
not-beats players offsets w id h = (ground arith, λ e. ground arith)

module _ (ids : List Str) (players : Dict Str PlayerInfo) (match_id : Str) where
  offsets_of : Dict Str ℕ
  offsets_of = roll_offsets (hash_string_to_seed match_id) (known_ids players ids) []

  known_of : All (λ id. (includes ids id ≡ true) × (has players id ≡ true)) (known_ids players ids)
  known_of =
      All-both _ _ (known_ids players ids)
        (All-keep_if (λ id. includes ids id ≡ true) _ ids (All-includes ids))
        (All-keep_if_self _ ids)

  best_of :
      (xs : List Str) (w : Str)
      → sort (beats players offsets_of) (known_ids players ids) ≡ xs
      → head? xs ≡ some w
      → ((includes ids w ≡ true) × (has players w ≡ true))
        × All (NoWorse players w) (known_ids players ids)
  best_of [] w e h = cc
  best_of (x ∷ rest) w e h =
      let o = beats-IsOrder players offsets_of in
      let x≡w : x ≡ w = cc in
      subst
        (λ v.
          ((includes ids v ≡ true) × (has players v ≡ true))
          × All (NoWorse players v) (known_ids players ids))
        x≡w
        (
          (subst (All (λ id. (includes ids id ≡ true) × (has players id ≡ true))) e
              (All-sort (beats players offsets_of) _ (known_ids players ids) known_of)).0,
          All-map (NoWorse players x) (not-beats players offsets_of x) (known_ids players ids)
              (sort-IsLeast (beats players offsets_of) o (known_ids players ids) x rest e),
        )

  -- The winner of a tie-break is one of the given ids and a known player, and every known player of
  -- them took at least as long in total and, if equally long, has no more correct answers.
  pub resolve_tie_break-best :
      (w : Str)
      → resolve_tie_break ids players match_id ≡ some w
      → (includes ids w ≡ true)
        × (has players w ≡ true)
        × All (NoWorse players w) (known_ids players ids)
  unfolding resolve_tie_break offsets_of
  resolve_tie_break-best w h =
      let b = best_of (sort (beats players offsets_of) (known_ids players ids)) w refl h in
      (b.0.0, b.0.1, b.1)

  none_left : (xs : List Str) → head? xs ≡ none → length xs ≡ 0
  none_left [] h = refl
  none_left (x ∷ xs) h = cc

  -- There is no winner only where none of the ids is a known player.
  resolve_tie_break-none :
      resolve_tie_break ids players match_id ≡ none → length (known_ids players ids) ≡ 0
  unfolding resolve_tie_break
  resolve_tie_break-none h = omega (arith, length-sort _ (known_ids players ids), none_left _ h)
