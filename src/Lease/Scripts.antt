-- ===== src/Lease/Scripts.antt =====
-- The lease primitives of apps/api/src/modules/redis/redis.lease.ts: a Lua script each, which the
-- server runs as one step, and the reading of its reply. Numbers travel as their decimal digits.
use the_arena_of.Prelude.{
  ℕ, ◌+◌, ◌*◌, Bool, true, false, not, ◌&&◌, ◌||◌, ◌∷◌, [], ◌++◌, Option, none, some, leb, nat_beq,
  ◌==◌, if◌then◌else◌, list_eq, nat_eq, ◌≡◌, ◌≤◌, ◌<◌,
}
use the_arena_of.Text.{Str, lit, decimal}
use the_arena_of.Text.Decimals.{is_canonical}
use the_arena_of.Lease.Redis.{Redis}
use the_arena_of.Lease.Tombstone.{
  TombstoneReason, dead_letter, reason_text, Gate, invalid, final, passes, lua_gate,
  max_safe_integer,
}

-- Lua's `tostring` of a whole number, which prints 14 digits and then an exponent, and JavaScript's
-- `Number` of a text where that is a whole number.
pub record Numerals : Type 0 where
  pub tostring : ℕ → Str
  pub to_integer : Str → Option ℕ

pub record IsNumerals (numerals : Numerals) : Type 0 where
  pub tostring-decimal : (n : ℕ) → n < 100000000000000 → numerals.tostring n ≡ decimal n
  pub tostring-exponent : (n : ℕ) → 100000000000000 ≤ n → is_canonical (numerals.tostring n) ≡ false
  pub to_integer-decimal : (n : ℕ) → n ≤ max_safe_integer → numerals.to_integer (decimal n) ≡ some n

-- `{ fence, leaseValue }`, `null`, `"TERMINAL"`, or an error of the infrastructure.
pub data Acquired : Type 0 where
  acquired : ℕ → Str → Acquired
  held : Acquired
  terminal : Acquired
  malformed : Acquired

pub data Written : Type 0 where
  applied : Written
  retry : Written

pub data Finalized : Type 0 where
  finalized : Finalized
  stale : Finalized

pub data Requeued : Type 0 where
  requeued : Requeued
  not_terminal : Requeued
  invalid_tombstone : Requeued
  already_final : Requeued
  no_state : Requeued
  conflict : Requeued

pub record RequeueDeadLetterKeys : Type 0 where
  pub tombstone_key : Str
  pub state_key : Str
  pub owner_key : Str
  pub fence_key : Str
  pub index_key : Str
  pub dead_letter_set : Str

-- `${nodeId}:${fence}`.
abbrev pub lease_value : Str → ℕ → Str
lease_value node fence = node ++ (58 ∷ decimal fence)

-- The value of a key is the expected one: `redis.call('GET', key) == expected`.
abbrev pub reads : Option Str → Str → Bool
reads none expected = false
reads (some v) expected = v == expected

-- `owner ~= false and owner ~= nil and owner ~= ''`.
abbrev pub is_live : Option Str → Bool
is_live none = false
is_live (some []) = false
is_live (some (c ∷ v)) = true

-- The state's revision is the expected one; a missing one counts as the initial revision 0.
abbrev pub revision_matches : Option Str → ℕ → Bool
revision_matches none expected = decimal expected == lit "0"
revision_matches (some r) expected = r == decimal expected

-- The observed value is `none` where the key was seen missing.
abbrev pub unchanged : Option Str → Option Str → Bool
unchanged none none = true
unchanged (some v) none = false
unchanged current (some v) = reads current v

-- The reading of the fence and the lease that a script returned.
abbrev pub read_fence : Str → Str → Option ℕ → Acquired
read_fence node lease none = malformed
read_fence node lease (some fence) =
    if not (leb 1 fence) || not (lease == lease_value node fence)
    then malformed
    else acquired fence lease

abbrev pub read_claim : Numerals → Str → Option (Str × Str) → Acquired
read_claim numerals node none = held
read_claim numerals node (some reply) = read_fence node reply.1 (numerals.to_integer reply.0)

module _ {ℓ} {S : Type ℓ} (redis : Redis S) where
  abbrev pub acquire_lease : Str → Str → ℕ → S → Bool × S
  acquire_lease key value ttl_sec s = redis.set_nx s key value ttl_sec

  unfoldable pub renew_lease : Str → Str → ℕ → S → Bool × S
  renew_lease key expected ttl_sec s =
      if reads (redis.get s key) expected then redis.pexpire s key (ttl_sec * 1000) else (false, s)

  unfoldable pub release_lease : Str → Str → S → Bool × S
  release_lease key expected s =
      if reads (redis.get s key) expected then (true, redis.del s key) else (false, s)

  unfoldable pub release_lease_and_index : Str → Str → Str → Str → S → Bool × S
  release_lease_and_index owner expected index member s =
      if reads (redis.get s owner) expected
      then (true, redis.srem (redis.del s owner) index member)
      else (false, s)

  -- The caller still owns the match: its lease is stored, and its fence is the newest.
  abbrev pub still_owns : Str → Str → Str → ℕ → S → Bool
  still_owns owner fence lease expected_fence s =
      reads (redis.get s owner) lease && reads (redis.get s fence) (decimal expected_fence)

  unfoldable pub fenced_state_set :
      Str → Str → Str → Str → Str → ℕ → Str → ℕ → ℕ → ℕ → S → Written × S
  fenced_state_set owner fence state revision lease expected_fence blob ttl_sec expected next s =
      if not (still_owns owner fence lease expected_fence s)
      then (retry, s)
      else if not (revision_matches (redis.get s revision) expected)
      then (retry, s)
      else if not (nat_beq next (expected + 1))
      then (retry, s)
      else (
        applied,
        redis.set_ex (redis.set_ex s state blob ttl_sec) revision (decimal next) ttl_sec,
      )

  unfoldable pub fenced_state_delete : Str → Str → Str → Str → Str → ℕ → S → Bool × S
  fenced_state_delete owner fence state revision lease expected_fence s =
      if not (still_owns owner fence lease expected_fence s)
      then (false, s)
      else (true, redis.del (redis.del s state) revision)

  unfoldable pub remove_active_if_state_absent : Str → Str → Str → S → Bool × S
  remove_active_if_state_absent state index member s =
      if redis.exists s state then (false, s) else (true, redis.srem s index member)

  unfoldable pub remove_index_member_if_value_unchanged :
      Str → Str → Str → Option Str → S → Bool × S
  remove_index_member_if_value_unchanged key index member observed s =
      if not (unchanged (redis.get s key) observed)
      then (false, s)
      else (true, redis.srem s index member)

  unfoldable pub remove_active_if_tombstoned : Str → Str → Str → S → Bool × S
  remove_active_if_tombstoned tombstone index member s =
      if not (redis.exists s tombstone) then (false, s) else (true, redis.srem s index member)

  -- The dead letters are also listed for the operators.
  abbrev pub list_dead_letter : TombstoneReason → Str → Str → S → S
  list_dead_letter dead_letter dead member s = redis.sadd s dead member
  list_dead_letter reason dead member s = s

  unfoldable pub finalize_match_tombstone :
      Str → Str → Str → Str → Str → Str → Str → ℕ → TombstoneReason → ℕ → S → Finalized × S
  finalize_match_tombstone owner fence tombstone index dead member lease expected_fence reason
        ttl_sec s =
      if not (still_owns owner fence lease expected_fence s) then (stale, s) else (
        finalized,
        list_dead_letter reason dead member (
            redis.srem
              (redis.set_ex s tombstone (reason_text reason ++ (58 ∷ decimal expected_fence))
                ttl_sec)
              index member),
      )

  -- The mutation of a requeue, all gates passed. A live owner is fenced out.
  abbrev pub requeue : RequeueDeadLetterKeys → Str → Bool → S → S
  requeue keys member live s =
      let fenced = if live then (redis.incr (redis.del s keys.owner_key) keys.fence_key).1 else s in
      redis.srem (redis.sadd (redis.del fenced keys.tombstone_key) keys.index_key member)
        keys.dead_letter_set member

  abbrev pub requeue_passed : RequeueDeadLetterKeys → Str → Bool → S → Requeued × S
  requeue_passed keys member force s =
      let live = is_live (redis.get s keys.owner_key) in
      if not (redis.exists s keys.state_key)
      then (no_state, s)
      else if live && not force
      then (conflict, s)
      else (requeued, requeue keys member live s)

  abbrev pub requeue_marked : RequeueDeadLetterKeys → Str → Bool → S → Gate → Requeued × S
  requeue_marked keys member force s invalid = (invalid_tombstone, s)
  requeue_marked keys member force s final = (already_final, s)
  requeue_marked keys member force s passes = requeue_passed keys member force s

  abbrev pub requeue_gated : RequeueDeadLetterKeys → Str → Bool → S → Option Str → Requeued × S
  requeue_gated keys member force s none = (not_terminal, s)
  requeue_gated keys member force s (some marker) =
      requeue_marked keys member force s (lua_gate marker)

  unfoldable pub requeue_dead_letter : RequeueDeadLetterKeys → Str → Bool → S → Requeued × S
  requeue_dead_letter keys member force s =
      requeue_gated keys member force s (redis.get s keys.tombstone_key)

module _ {ℓ} {S : Type ℓ} (redis : Redis S) (numerals : Numerals) where
  -- What the script returns: nothing, or the fence and the lease as texts.
  abbrev pub claim : Str → Str → Str → ℕ → S → Option (Str × Str) × S
  claim owner fence node ttl_sec s =
      if is_live (redis.get s owner)
      then (none, s)
      else let advanced = redis.incr s fence in
        let new_fence = numerals.tostring advanced.0 in
        let lease = node ++ (58 ∷ new_fence) in
        (some (new_fence, lease), redis.set_ex advanced.1 owner lease ttl_sec)

  unfoldable pub acquire_lease_with_fence : Str → Str → Str → ℕ → S → Acquired × S
  acquire_lease_with_fence owner fence node ttl_sec s =
      let reply = claim owner fence node ttl_sec s in (read_claim numerals node reply.0, reply.1)

  unfoldable pub acquire_match_lease : Str → Str → Str → Str → ℕ → S → Acquired × S
  acquire_match_lease owner fence tombstone node ttl_sec s =
      if redis.exists s tombstone
      then (terminal, s)
      else let reply = claim owner fence node ttl_sec s in
        (read_claim numerals node reply.0, reply.1)
