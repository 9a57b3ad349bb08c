-- ===== src/Text/Decimals.antt =====
-- The decimal digits of a number (`Text.decimal`) read back, and the order of digit strings: what a
-- template literal writes, `Number` reads, and code units compare.
use the_arena_of.Prelude.{
  inr, inl, ℕ, zero, suc, ◌+◌, ◌-◌, ◌*◌, ◌/◌, ◌%◌, ◌≤◌, ◌<◌, ◌≡◌, refl, sym, ap, ◌∙◌, Bool, true,
  false, ◌&&◌, [], ◌∷◌, arith, ltb, leb, ltb→lt, Bool-cases, length, All,
}
use the_arena_of.Text.{Str, decimal, decimal_from, str_lt}

-- `\d` and `[0-9]`.
abbrev pub is_digit : ℕ → Bool
is_digit c = leb 48 c && leb c 57

abbrev pub Digits : Str → Type 0
Digits s = All (λ c. is_digit c ≡ true) s

-- The number that digits stand for, behind a number already read.
unfoldable pub digits_value : ℕ → Str → ℕ
digits_value x [] = x
digits_value x (c ∷ s) = digits_value (10 * x + (c - 48)) s

abbrev pub number : Str → ℕ
number s = digits_value 0 s

digit_of : (n : ℕ) → n < 10 → is_digit (48 + n) ≡ true
digit_of n h = ground arith

decimal_from-value :
    (fuel n : ℕ) (rest : Str)
    → n < fuel
    → digits_value 0 (decimal_from fuel n rest) ≡ digits_value n rest
unfolding decimal_from digits_value
decimal_from-value zero n rest h = absurd (omega arith)
decimal_from-value (suc fuel) n rest h = elim (Bool-cases (ltb n 10)) [
  | inl small ↦ rw small (ap (λ v. digits_value v rest) (omega arith))
  | inr large ↦
      let above : 10 ≤ n = ground (arith, large) in
      rw large (
        decimal_from-value fuel (n / 10) ((48 + n % 10) ∷ rest) (omega (arith, above))
        ∙ ap (λ v. digits_value v rest) (omega arith))
]

-- The digits of a number are read back as that number.
pub number-decimal : (n : ℕ) → number (decimal n) ≡ n
unfolding decimal digits_value
number-decimal n = decimal_from-value (suc n) n [] (omega arith)

-- Different numbers have different digits.
pub decimal_inj : (a b : ℕ) → decimal a ≡ decimal b → a ≡ b
decimal_inj a b h = sym (number-decimal a) ∙ (ap number h ∙ number-decimal b)

decimal_from-Digits : (fuel n : ℕ) (rest : Str) → Digits rest → Digits (decimal_from fuel n rest)
unfolding decimal_from
decimal_from-Digits zero n rest h = h
decimal_from-Digits (suc fuel) n rest h = elim (Bool-cases (ltb n 10)) [
  | inl small ↦ rw small (digit_of n (ltb→lt n 10 small), h)
  | inr large ↦ rw large (
      decimal_from-Digits fuel (n / 10) ((48 + n % 10) ∷ rest) (digit_of (n % 10) (omega arith), h))
]

pub decimal-Digits : (n : ℕ) → Digits (decimal n)
unfolding decimal
decimal-Digits n = decimal_from-Digits (suc n) n [] tt

-- `^[1-9][0-9]*$`: digits, the first of them not 0.
unfoldable pub all_digits : Str → Bool
all_digits [] = true
all_digits (c ∷ s) = is_digit c && all_digits s

unfoldable pub is_canonical : Str → Bool
is_canonical [] = false
is_canonical (c ∷ s) = leb 49 c && leb c 57 && all_digits s

pub all_digits-Digits : (s : Str) → all_digits s ≡ true → Digits s
unfolding all_digits
all_digits-Digits [] h = tt
all_digits-Digits (c ∷ s) h = (ground (arith, h), all_digits-Digits s (ground (arith, h)))

Digits-all_digits : (s : Str) → Digits s → all_digits s ≡ true
unfolding all_digits
Digits-all_digits [] h = refl
Digits-all_digits (c ∷ s) h = rw (h.0, Digits-all_digits s h.1)

decimal_from-is_canonical :
    (fuel n : ℕ) (rest : Str)
    → n < fuel
    → 1 ≤ n
    → Digits rest
    → is_canonical (decimal_from fuel n rest) ≡ true
unfolding decimal_from is_canonical
decimal_from-is_canonical zero n rest h p d = absurd (omega arith)
decimal_from-is_canonical (suc fuel) n rest h p d = elim (Bool-cases (ltb n 10)) [
  | inl small ↦ rw (small, Digits-all_digits rest d) (ground (arith, small, p))
  | inr large ↦
      let above : 10 ≤ n = ground (arith, large) in
      rw large (
        decimal_from-is_canonical fuel (n / 10) ((48 + n % 10) ∷ rest) (omega (arith, above))
          (omega (arith, above)) (digit_of (n % 10) (omega arith), d))
]

-- The digits of a positive number are canonical.
pub decimal-is_canonical : (n : ℕ) → 1 ≤ n → is_canonical (decimal n) ≡ true
unfolding decimal
decimal-is_canonical n h = decimal_from-is_canonical (suc n) n [] (omega arith) h tt

pub digits_value-le : (x : ℕ) (s : Str) → x ≤ digits_value x s
unfolding digits_value
digits_value-le x [] = omega arith
digits_value-le x (c ∷ s) = omega (arith, digits_value-le (10 * x + (c - 48)) s)

-- What was read before decides, where no fewer digits follow the greater.
pub digits_value-lt :
    (x y : ℕ) (a b : Str)
    → x < y
    → Digits a
    → length a ≤ length b
    → digits_value x a < digits_value y b
unfolding digits_value
digits_value-lt x y [] b h d l = omega (arith, digits_value-le y b)
digits_value-lt x y (c ∷ a) [] h d l = absurd (omega arith)
digits_value-lt x y (c ∷ a) (e ∷ b) h d l =
    digits_value-lt (10 * x + (c - 48)) (10 * y + (e - 48)) a b (ground (arith, h, d.0)) d.1
      (omega arith)

-- Digit strings of one length compare as their numbers do.
pub str_lt-digits_value :
    (x : ℕ) (a b : Str)
    → Digits a
    → Digits b
    → length a ≡ length b
    → str_lt a b ≡ ltb (digits_value x a) (digits_value x b)
unfolding digits_value str_lt
str_lt-digits_value x [] [] d e l = ground arith
str_lt-digits_value x [] (v ∷ b) d e l = absurd (omega arith)
str_lt-digits_value x (c ∷ a) [] d e l = absurd (omega arith)
str_lt-digits_value x (c ∷ a) (v ∷ b) d e l =
    let same_length : length a ≡ length b = omega arith in
    let rest = str_lt-digits_value (10 * x + (c - 48)) a b d.1 e.1 same_length in
    ground (
      arith,
      d.0,
      e.0,
      rest,
      same_length,
      digits_value-lt (10 * x + (c - 48)) (10 * x + (v - 48)) a b,
      digits_value-lt (10 * x + (v - 48)) (10 * x + (c - 48)) b a,
    )
