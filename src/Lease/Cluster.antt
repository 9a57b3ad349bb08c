-- ===== src/Lease/Cluster.antt =====
-- The server processes on one match: each calls the primitives of
-- apps/api/src/modules/redis/redis.lease.ts with the match's keys, whenever it likes and with whatever
-- lease and fence it believes in. Between two calls keys expire and the other matches go on.
pub mod Fences
pub mod Growth
use the_arena_of.Prelude.{ℕ, suc, ◌≤◌, ◌≡◌, ◌⊎◌, Bool, true, false, Option, none, some}
use the_arena_of.Text.{Str}
use the_arena_of.Lease.Redis.{Redis, SameKey}
use the_arena_of.Lease.Tombstone.{TombstoneReason}
use the_arena_of.Lease.Keys.{
  active_set, dead_letter_set, fence_key, owner_key, tombstone_key, state_key, revision_key,
  requeue_keys,
}
use the_arena_of.Lease.Scripts.{
  Numerals, renew_lease, release_lease, release_lease_and_index, fenced_state_set,
  fenced_state_delete, remove_active_if_state_absent, remove_index_member_if_value_unchanged,
  remove_active_if_tombstoned, finalize_match_tombstone, requeue_dead_letter,
  acquire_lease_with_fence, acquire_match_lease,
}

-- A lease is a node's name for the new ones, and the text that the caller keeps for the others.
pub data Call : Type 0 where
  acquires : (node : Str) (ttl : ℕ) → 1 ≤ ttl → Call
  acquires_match : (node : Str) (ttl : ℕ) → 1 ≤ ttl → Call
  renews : (lease : Str) (ttl : ℕ) → 1 ≤ ttl → Call
  releases : (lease : Str) → Call
  releases_index : (lease : Str) → Call
  writes : (lease : Str) (fence : ℕ) (blob : Str) (ttl expected next : ℕ) → 1 ≤ ttl → Call
  deletes : (lease : Str) (fence : ℕ) → Call
  drops_stateless : Call
  drops_unchanged : (observed : Option Str) → Call
  drops_tombstoned : Call
  finalizes : (lease : Str) (fence : ℕ) (reason : TombstoneReason) (ttl : ℕ) → 1 ≤ ttl → Call
  requeues : (force : Bool) → Call

module _ {ℓ} {S : Type ℓ} (redis : Redis S) (numerals : Numerals) (id : Str) where
  unfoldable pub step : Call → S → S
  step (acquires node ttl h) s =
      (acquire_lease_with_fence redis numerals (owner_key id) (fence_key id) node ttl s).1
  step (acquires_match node ttl h) s =
      (acquire_match_lease redis numerals (owner_key id) (fence_key id) (tombstone_key id) node ttl
        s).1
  step (renews lease ttl h) s = (renew_lease redis (owner_key id) lease ttl s).1
  step (releases lease) s = (release_lease redis (owner_key id) lease s).1
  step (releases_index lease) s =
      (release_lease_and_index redis (owner_key id) lease active_set id s).1
  step (writes lease fence blob ttl expected next h) s =
      (fenced_state_set redis (owner_key id) (fence_key id) (state_key id) (revision_key id) lease
        fence blob ttl expected next s).1
  step (deletes lease fence) s =
      (fenced_state_delete redis (owner_key id) (fence_key id) (state_key id) (revision_key id)
        lease fence s).1
  step drops_stateless s = (remove_active_if_state_absent redis (state_key id) active_set id s).1
  step (drops_unchanged observed) s =
      (remove_index_member_if_value_unchanged redis (owner_key id) active_set id observed s).1
  step drops_tombstoned s = (remove_active_if_tombstoned redis (tombstone_key id) active_set id s).1
  step (finalizes lease fence reason ttl h) s =
      (finalize_match_tombstone redis (owner_key id) (fence_key id) (tombstone_key id) active_set
        dead_letter_set id lease fence reason ttl s).1
  step (requeues force) s = (requeue_dead_letter redis (requeue_keys id) id force s).1

  -- Without a call on this match its owner key at most expires, and a fence without a time to live stays.
  pub record Drifts (s t : S) : Type 0 where
    pub owner :
        (redis.get t (owner_key id) ≡ redis.get s (owner_key id))
        ⊎ (redis.get t (owner_key id) ≡ none)
    pub fence : redis.expires s (fence_key id) ≡ false → SameKey redis s t (fence_key id)

  pub data Reach (s : S) : S → Type ℓ where
    here : Reach s s
    call : {t : S} → Reach s t → (c : Call) → Reach s (step c t)
    drift : {t u : S} → Reach s t → Drifts t u → Reach s u
