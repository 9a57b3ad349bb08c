-- ===== src/Lease/Tombstone/Agree.antt =====
-- The Lua gate and the TypeScript parser on the same marker.
use the_arena_of.Prelude.{
  list_beq_iff, ℕ, suc, ◌+◌, ◌-◌, ◌*◌, ◌≤◌, ◌<◌, ◌≡◌, refl, sym, true, false, not, ◌||◌, [], ◌∷◌,
  ◌++◌, Option, none, some, arith, ltb, nat_beq, ◌==◌, Bool-cases, length, take, drop, list_eq,
  nat_eq, inl, inr,
}
use the_arena_of.Text.{Str, lit, decimal, str_lt}
use the_arena_of.Text.Decimals.{
  Digits, number, digits_value, digits_value-le, digits_value-lt, str_lt-digits_value, is_canonical,
  all_digits-Digits, decimal-is_canonical, number-decimal,
}
use the_arena_of.Lease.Tombstone.{
  TombstoneReason, finished, dead_letter, cleaned, reason_text, reason_of, is_valid_finalized_fence,
  Tombstone, parse_tombstone, Gate, invalid, final, passes, lua_out_of_range, lua_reason_gate,
  lua_gate, index_of, max_safe_integer, with_fence, parse_at, lua_gate_at, lua_fence_gate,
}

abbrev greatest : Str
greatest = lit "9007199254740991"

greatest-number :
    (a : Str) → Digits a → length a ≡ 16 → str_lt greatest a ≡ ltb max_safe_integer (number a)
unfolding digits_value
greatest-number a d l = str_lt-digits_value 0 greatest a (ground arith) d (sym l)

long : (a : Str) → is_canonical a ≡ true → 16 < length a → max_safe_integer < number a
unfolding is_canonical digits_value
long [] h l = cc
long (c ∷ a) h l =
    digits_value-lt 0 (10 * 0 + (c - 48)) greatest a (ground (arith, h)) (ground arith)
      (omega arith)

short : (a : Str) → Digits a → length a < 16 → number a < max_safe_integer
unfolding digits_value
short a d l = digits_value-lt 0 9 a (lit "007199254740991") (omega arith) d (omega arith)

positive : (a : Str) → is_canonical a ≡ true → 1 ≤ number a
unfolding is_canonical digits_value
positive [] h = cc
positive (c ∷ a) h = omega (arith, digits_value-le (10 * 0 + (c - 48)) a, not_zero)
  where
    not_zero : 49 ≤ c
    not_zero = ground (arith, h)

canonical-Digits : (a : Str) → is_canonical a ≡ true → Digits a
unfolding is_canonical
canonical-Digits [] h = tt
canonical-Digits (c ∷ a) h = (ground (arith, h), all_digits-Digits a (ground (arith, h)))

-- On digits without a leading zero, the Lua guard, which compares text, rejects exactly the numbers
-- that the TypeScript check on the number rejects.
lua_out_of_range-is_valid_finalized_fence :
    (raw : Str)
    → is_canonical raw ≡ true
    → lua_out_of_range raw ≡ not (is_valid_finalized_fence raw)
unfolding lua_out_of_range is_valid_finalized_fence
lua_out_of_range-is_valid_finalized_fence raw h =
    let digits = canonical-Digits raw h in
    rw h (ground (arith, positive raw h, long raw h, short raw digits, greatest-number raw digits))

abbrev pub reason_gate : Option TombstoneReason → Gate
reason_gate none = invalid
reason_gate (some finished) = final
reason_gate (some dead_letter) = passes
reason_gate (some cleaned) = final

-- What the gate should say of a parsed marker: only a dead letter may be requeued.
abbrev pub gate_of : Option Tombstone → Gate
gate_of none = invalid
gate_of (some t) = reason_gate (some t.reason)

lua_reason_gate-reason_of : (r : Str) → lua_reason_gate r ≡ reason_gate (reason_of r)
unfolding lua_reason_gate reason_of reason_text
lua_reason_gate-reason_of r = elim (Bool-cases (r == lit "finished")) [
  | inl f ↦ rw ((list_beq_iff r (lit "finished")).0 f) refl
  | inr f ↦ elim (Bool-cases (r == lit "dead-letter")) [
    | inl d ↦ rw ((list_beq_iff r (lit "dead-letter")).0 d) refl
    | inr d ↦ elim (Bool-cases (r == lit "cleaned")) [
      | inl c ↦ rw ((list_beq_iff r (lit "cleaned")).0 c) refl
      | inr c ↦ rw (f, d, c) refl
    ]
  ]
]

with_fence-invalid :
    (raw : Str) (r : Option TombstoneReason)
    → is_valid_finalized_fence raw ≡ false
    → with_fence raw r ≡ none
with_fence-invalid raw none h = refl
with_fence-invalid raw (some r) h = rw h refl

with_fence-valid :
    (raw : Str) (r : Option TombstoneReason)
    → is_valid_finalized_fence raw ≡ true
    → gate_of (with_fence raw r) ≡ reason_gate r
with_fence-valid raw none h = refl
with_fence-valid raw (some finished) h = rw h refl
with_fence-valid raw (some dead_letter) h = rw h refl
with_fence-valid raw (some cleaned) h = rw h refl

valid-is_canonical : (raw : Str) → is_canonical raw ≡ false → is_valid_finalized_fence raw ≡ false
unfolding is_valid_finalized_fence
valid-is_canonical raw h = rw h refl

fence_gate-with_fence :
    (reason raw : Str) → lua_fence_gate reason raw ≡ gate_of (with_fence raw (reason_of reason))
fence_gate-with_fence reason raw = elim (Bool-cases (is_canonical raw)) [
  | inr n ↦ rw (n, with_fence-invalid raw (reason_of reason) (valid-is_canonical raw n)) refl
  | inl y ↦ elim (Bool-cases (is_valid_finalized_fence raw)) [
    | inr n ↦
        rw
          (
            y,
            lua_out_of_range-is_valid_finalized_fence raw y,
            n,
            with_fence-invalid raw (reason_of reason) n,
          )
          refl
    | inl v ↦
        rw
          (
            y,
            lua_out_of_range-is_valid_finalized_fence raw y,
            v,
            with_fence-valid raw (reason_of reason) v,
          )
          (lua_reason_gate-reason_of reason)
  ]
]

gate_at-parse_at :
    (value : Str) (sep : Option ℕ) → lua_gate_at value sep ≡ gate_of (parse_at value sep)
gate_at-parse_at value none = refl
gate_at-parse_at value (some sep) =
    elim (Bool-cases (nat_beq sep 0 || nat_beq (suc sep) (length value))) [
      | inl at_end ↦ rw at_end refl
      | inr inside ↦ rw inside (fence_gate-with_fence (take sep value) (drop (suc sep) value))
    ]

-- The first gate of the requeue script accepts the markers that `parseTombstone` accepts, whatever
-- the text: it passes the dead letters, stops at the other reasons as final, and calls everything
-- that the parser refuses invalid.
pub lua_gate-parse_tombstone : (value : Str) → lua_gate value ≡ gate_of (parse_tombstone value)
unfolding lua_gate parse_tombstone
lua_gate-parse_tombstone value = gate_at-parse_at value (index_of value 58)

abbrev pub marker : TombstoneReason → ℕ → Str
marker r n = reason_text r ++ (58 ∷ decimal n)

decimal-is_valid :
    (n : ℕ) → 1 ≤ n → n ≤ max_safe_integer → is_valid_finalized_fence (decimal n) ≡ true
unfolding is_valid_finalized_fence
decimal-is_valid n p q = rw (decimal-is_canonical n p, number-decimal n) (ground (arith, p, q))

canonical-length : (s : Str) → is_canonical s ≡ true → 1 ≤ length s
unfolding is_canonical
canonical-length [] h = cc
canonical-length (c ∷ s) h = omega arith

decimal-length : (n : ℕ) → 1 ≤ n → 1 ≤ length (decimal n)
decimal-length n p = canonical-length (decimal n) (decimal-is_canonical n p)

-- A marker that was written for a fence in the range is parsed as its reason and its fence.
pub parse_tombstone-marker :
    (r : TombstoneReason) (n : ℕ)
    → 1 ≤ n
    → n ≤ max_safe_integer
    → parse_tombstone (marker r n) ≡ some (record { reason = r; fence = n })
unfolding parse_tombstone reason_text reason_of
parse_tombstone-marker finished n p q =
    rw (decimal-is_valid n p q, number-decimal n) (ground (arith, decimal-length n p))
parse_tombstone-marker dead_letter n p q =
    rw (decimal-is_valid n p q, number-decimal n) (ground (arith, decimal-length n p))
parse_tombstone-marker cleaned n p q =
    rw (decimal-is_valid n p q, number-decimal n) (ground (arith, decimal-length n p))
