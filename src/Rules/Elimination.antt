-- ===== src/Rules/Elimination.antt =====
-- packages/game-core/src/round-elimination.ts.
use the_arena_of.Prelude.{
  ℕ, suc, Bool, false, not, ◌&&◌, ◌||◌, List, [], ◌∷◌, Option, none, some, if◌then◌else◌, get_elem?,
  keep_if, ◌==◌, list_eq, nat_eq, nat_beq,
}
use the_arena_of.Prelude.Dict.{get}
use the_arena_of.Text.{Str, Locale, lit, is_empty}
use the_arena_of.Match.State.{AnswerState, RoundState}

abbrev answer_codes : List Str
answer_codes = lit "A" ∷ lit "B" ∷ lit "C" ∷ lit "D" ∷ []

-- `xs.findIndex(p)`, `none` for -1.
find_index : (Str → Bool) → List Str → Option ℕ
find_index p [] = none
find_index p (x ∷ xs) =
    let rest = find_index p xs in
    if p x then some 0 else elim rest [ none ↦ none | some i ↦ some (suc i) ]

-- `options[i]` for a code's index, compared with a clean text.
option_matches : Locale → List Str → Option ℕ → Str → Bool
option_matches l options none clean = false
option_matches l options (some i) clean = elim (get_elem? options i) [
  | none ↦ false
  | some o ↦ l.to_lower (l.trim o) == l.to_lower clean
]

same_index : Option ℕ → Option ℕ → Bool
same_index none j = false
same_index (some i) none = false
same_index (some i) (some j) = nat_beq i j

-- The comparison of two cleaned texts against the options, when there are any.
match_options : Locale → Str → Str → List Str → Bool
unfolding find_index option_matches same_index
match_options l sub corr [] = false
match_options l sub corr (o ∷ os) =
    option_matches l (o ∷ os) (find_index (λ c. c == l.to_upper sub) answer_codes) corr
    || option_matches l (o ∷ os) (find_index (λ c. c == l.to_upper corr) answer_codes) sub
    || same_index (find_index (λ x. l.to_lower (l.trim x) == l.to_lower sub) (o ∷ os))
        (find_index (λ x. l.to_lower (l.trim x) == l.to_lower corr) (o ∷ os))

-- A missing answer is `none`, and an empty one is no answer.
unfoldable pub is_answer_match : Locale → Option Str → Option Str → List Str → Bool
unfolding match_options
is_answer_match l none correct options = false
is_answer_match l (some s) none options = false
is_answer_match l (some s) (some c) options =
    not (is_empty s)
    && not (is_empty c)
    && (l.to_lower (l.trim s) == l.to_lower (l.trim c)
        || match_options l (l.trim s) (l.trim c) options)

-- Whether a recorded answer keeps its player in the match.
unfoldable pub is_right : Locale → RoundState → AnswerState → Bool
is_right l round a = elim a.is_correct [
  | some b ↦ b
  | none ↦ is_answer_match l (some a.answer) round.correct_answer round.question.options
]

abbrev pub survives : Locale → RoundState → Str → Bool
survives l round player_id = elim (get round.answers player_id) [
  | none ↦ false
  | some a ↦ is_right l round a
]

-- `eliminationsForRound`, the starting players given apart.
unfoldable pub eliminations_for_round : Locale → RoundState → List Str → List Str
eliminations_for_round l round starting_players =
    keep_if (λ player_id. not (survives l round player_id)) starting_players
