-- ===== src/Prng.antt =====
-- packages/game-core/src/prng.ts: the seed hash and the generator. A float in [0, 1) that the
-- generator returns is n / 2 ^ 32; the model carries n.
pub mod Sha256
pub mod Period
use Prim.Native.Nat.{bit_or, bit_xor}
use the_arena_of.Prelude.{
  ℕ, suc, ◌+◌, ◌*◌, ◌/◌, ◌%◌, ◌^◌, ◌<◌, ◌≡◌, refl, List, [], ◌∷◌, ◌++◌, arith, foldl,
}
use the_arena_of.Text.{Str, lit}
use Sha256.{word_size, seed_from_string}

abbrev imul : ℕ → ℕ → ℕ
imul a b = a * b % word_size

-- FNV-1a over the code units.
unfoldable pub hash_string_to_seed : Str → ℕ
hash_string_to_seed s = foldl (λ hash c. imul (bit_xor hash c) 0x01000193) 0x811c9dc5 s % word_size

unfoldable pub derive_substream : Str → Str → ℕ
unfolding seed_from_string
derive_substream parent label = seed_from_string (parent ++ (lit "|" ++ label))

abbrev pub increment : ℕ
increment = 0x6d2b79f5

-- The float's numerator, from the state that a call has reached.
abbrev pub scramble : ℕ → ℕ
scramble a =
    let t = imul (bit_xor a (a / 2 ^ 15)) (bit_or a 1) in
    let u = bit_xor t ((t + imul (bit_xor t (t / 2 ^ 7)) (bit_or t 61)) % word_size) in
    bit_xor u (u / 2 ^ 14) % word_size

-- One call of the generator: the float's numerator, and the next state `a`.
unfoldable pub mulberry32 : ℕ → ℕ × ℕ
mulberry32 state = let a = (state + increment) % word_size in (scramble a, a)

-- The first `n` floats of a generator, for one use each.
unfoldable pub rolls {ℓ} : {A : Type ℓ} → ℕ → List A → List (A × ℕ)
unfolding mulberry32
rolls state [] = []
rolls state (x ∷ xs) = let (u, next) = mulberry32 state in (x, u) ∷ rolls next xs

-- Every float is below 1, and the state stays a word.
pub mulberry32-lt :
    (state : ℕ) → ((mulberry32 state).0 < word_size) × ((mulberry32 state).1 < word_size)
unfolding mulberry32
mulberry32-lt state = (omega arith, omega arith)
