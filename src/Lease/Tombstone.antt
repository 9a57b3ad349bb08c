-- ===== src/Lease/Tombstone.antt =====
-- Terminal markers, `<reason>:<fence>`: `parseTombstone` of
-- apps/api/src/modules/match/match-ownership.store.ts, and the first gate of the requeue script in
-- apps/api/src/modules/redis/redis.lease.ts, which reads the same values in Lua.
pub mod Agree
use the_arena_of.Prelude.{
  ℕ, zero, suc, ◌+◌, ◌≤◌, ◌≡◌, refl, Bool, true, false, not, ◌&&◌, ◌||◌, List, [], ◌∷◌, ◌++◌,
  Option, none, some, arith, ltb, leb, nat_beq, ◌==◌, if◌then◌else◌, Bool-cases, length, take, drop,
  list_eq, nat_eq, inl, inr,
}
use the_arena_of.Text.{Str, lit, decimal, str_lt}
use the_arena_of.Text.Decimals.{number, is_canonical}

-- `s.indexOf(c)` for one character; none is -1.
abbrev pub index_of : Str → ℕ → Option ℕ
index_of [] c = none
index_of (x ∷ s) c =
    if x == c then some 0 else elim (index_of s c) [ none ↦ none | some i ↦ some (suc i) ]

pub data TombstoneReason : Type 0 where
  finished : TombstoneReason
  dead_letter : TombstoneReason
  cleaned : TombstoneReason

unfoldable pub reason_text : TombstoneReason → Str
reason_text finished = lit "finished"
reason_text dead_letter = lit "dead-letter"
reason_text cleaned = lit "cleaned"

-- The member of `TOMBSTONE_REASONS` with that text.
unfoldable pub reason_of : Str → Option TombstoneReason
unfolding reason_text
reason_of s =
    if s == reason_text finished
    then some finished
    else if s == reason_text dead_letter
    then some dead_letter
    else if s == reason_text cleaned
    then some cleaned
    else none

-- `Number.MAX_SAFE_INTEGER`.
abbrev pub max_safe_integer : ℕ
max_safe_integer = 9007199254740991

-- `Number` is exact on digits up to the bound, and rounds those above to 2 ^ 53 or more.
unfoldable pub is_valid_finalized_fence : Str → Bool
is_valid_finalized_fence raw =
    if not (is_canonical raw)
    then false
    else leb (number raw) max_safe_integer && leb 1 (number raw)

pub record Tombstone : Type 0 where
  pub reason : TombstoneReason
  pub fence : ℕ

abbrev pub with_fence : Str → Option TombstoneReason → Option Tombstone
with_fence raw none = none
with_fence raw (some r) =
    if not (is_valid_finalized_fence raw)
    then none
    else some (record { reason = r; fence = number raw })

abbrev pub parse_at : Str → Option ℕ → Option Tombstone
parse_at value none = none
parse_at value (some sep) =
    if nat_beq sep 0 || nat_beq (suc sep) (length value)
    then none
    else with_fence (drop (suc sep) value) (reason_of (take sep value))

-- Code 58 is the colon.
unfoldable pub parse_tombstone : Str → Option Tombstone
parse_tombstone value = parse_at value (index_of value 58)

-- What the gate says of a marker that is there: the reply it stops with, or that it lets the call pass.
pub data Gate : Type 0 where
  invalid : Gate
  final : Gate
  passes : Gate

-- The range guard: no more than 16 digits, and 16 digits only up to the bound's, as text.
unfoldable pub lua_out_of_range : Str → Bool
lua_out_of_range fence =
    ltb 16 (length fence) || (nat_beq (length fence) 16 && str_lt (lit "9007199254740991") fence)

unfoldable pub lua_reason_gate : Str → Gate
unfolding reason_text
lua_reason_gate reason =
    if not (reason == reason_text finished)
      && not (reason == reason_text dead_letter)
      && not (reason == reason_text cleaned)
    then invalid
    else if not (reason == reason_text dead_letter)
    then final
    else passes

abbrev pub lua_fence_gate : Str → Str → Gate
lua_fence_gate reason fence =
    if not (is_canonical fence)
    then invalid
    else if lua_out_of_range fence
    then invalid
    else lua_reason_gate reason

abbrev pub lua_gate_at : Str → Option ℕ → Gate
lua_gate_at tomb none = invalid
lua_gate_at tomb (some sep) =
    if nat_beq sep 0 || nat_beq (suc sep) (length tomb)
    then invalid
    else lua_fence_gate (take sep tomb) (drop (suc sep) tomb)

-- `string.find` counts from one, `index_of` from zero.
unfoldable pub lua_gate : Str → Gate
lua_gate tomb = lua_gate_at tomb (index_of tomb 58)
