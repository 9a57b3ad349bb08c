-- ===== src/Prng/Period.antt =====
-- The states that the generator of packages/game-core/src/prng.ts goes through: a counter with an odd
-- step.
use the_arena_of.Prelude.{ℕ, zero, suc, ◌+◌, ◌-◌, ◌*◌, ◌%◌, ◌<◌, ◌≡◌, refl, arith}
use the_arena_of.Prng.{increment}
use the_arena_of.Prng.Sha256.{word_size}

-- The inverse of the step, modulo 2 ^ 32.
abbrev inverse : ℕ
inverse = 3696798301

-- How many calls, less one, lead to a state.
steps_from :
    (d x s t : ℕ)
    → t < word_size
    → x ≡ t + (word_size - s % word_size)
    → d ≡ x * inverse % word_size
    → (k : ℕ) × (k < word_size) × ((s + suc k * increment) % word_size ≡ t)
steps_from zero x s t h e f = (4294967295, omega arith, omega arith)
steps_from (suc k) x s t h e f = (k, omega arith, omega arith)

-- From any state, every word is the state of some call of the next 2 ^ 32.
pub reaches :
    (s t : ℕ)
    → t < word_size
    → (k : ℕ) × (k < word_size) × ((s + suc k * increment) % word_size ≡ t)
reaches s t h = steps_from _ _ s t h refl refl
