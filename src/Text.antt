-- ===== src/Text.antt =====
-- JavaScript strings as their UTF-16 code units, and what the source does with them: `===`, `<`,
-- `slice`, template literals with a number. `trim`, `toLowerCase` and `toUpperCase` depend on the
-- host's Unicode tables; they are the fields of `Locale`.
pub mod Decimals
use Prim.Native.String.{String}
use Prim.Native.Char.{code}
use mathlib.Core.List.{List, [], ◌∷◌}
use the_arena_of.Prelude.{
  ℕ, zero, suc, ◌+◌, ◌/◌, ◌%◌, ◌≡◌, refl, Bool, true, false, arith, ltb, if◌then◌else◌, compare,
  Ordering,
}
use the_arena_of.Prelude.Sort.{IsOrder}

abbrev pub Str : Type 0
Str = List ℕ

-- The code units of an ASCII literal.
abbrev pub lit : String → Str
lit String.[] = []
lit (String.◌∷◌ c s) = code c ∷ lit s

-- `a < b` on strings: code unit by code unit, a proper prefix first.
unfoldable pub str_lt : Str → Str → Bool
str_lt [] [] = false
str_lt [] (y ∷ ys) = true
str_lt (x ∷ xs) [] = false
str_lt (x ∷ xs) (y ∷ ys) = elim (compare x y) [
  | Ordering.lt ↦ true
  | Ordering.gt ↦ false
  | Ordering.eq ↦ str_lt xs ys
]

str_lt-asym : (a b : Str) → str_lt a b ≡ true → str_lt b a ≡ false
unfolding str_lt
str_lt-asym [] [] h = refl
str_lt-asym [] (y ∷ ys) h = refl
str_lt-asym (x ∷ xs) [] h = cc
str_lt-asym (x ∷ xs) (y ∷ ys) h = ground (arith, str_lt-asym xs ys)

str_lt_trans : (a b c : Str) → str_lt b a ≡ false → str_lt c b ≡ false → str_lt c a ≡ false
unfolding str_lt
str_lt_trans [] [] c p q = q
str_lt_trans [] (y ∷ ys) [] p q = refl
str_lt_trans [] (y ∷ ys) (z ∷ zs) p q = refl
str_lt_trans (x ∷ xs) [] c p q = cc
str_lt_trans (x ∷ xs) (y ∷ ys) [] p q = cc
str_lt_trans (x ∷ xs) (y ∷ ys) (z ∷ zs) p q = ground (arith, str_lt_trans xs ys zs)

pub str_lt-IsOrder : IsOrder str_lt
str_lt-IsOrder = record { asym = str_lt-asym; trans = str_lt_trans }

-- Neither before the other: the same string.
pub str_lt-total : (a b : Str) → str_lt a b ≡ false → str_lt b a ≡ false → a ≡ b
unfolding str_lt
str_lt-total [] [] p q = refl
str_lt-total [] (y ∷ ys) p q = cc
str_lt-total (x ∷ xs) [] p q = cc
str_lt-total (x ∷ xs) (y ∷ ys) p q = ground (arith, str_lt-total xs ys)

-- The decimal digits of a number, as `${n}` writes them; every number has fewer digits than n + 1.
unfoldable pub decimal_from : ℕ → ℕ → Str → Str
decimal_from zero n rest = rest
decimal_from (suc fuel) n rest =
    let more = decimal_from fuel (n / 10) ((48 + n % 10) ∷ rest) in
    if ltb n 10 then (48 + n) ∷ rest else more

unfoldable pub decimal : ℕ → Str
unfolding decimal_from
decimal n = decimal_from (suc n) n []

-- `!s` of a string: it is empty.
abbrev pub is_empty : Str → Bool
is_empty [] = true
is_empty (c ∷ s) = false

-- The host's text functions.
pub record Locale : Type 0 where
  pub trim : Str → Str
  pub to_lower : Str → Str
  pub to_upper : Str → Str

decimal_2026 : decimal 2026 ≡ lit "2026"
unfolding decimal
decimal_2026 = refl
