-- ===== src/Lease/Requeue.antt =====
-- The end of a match in Redis and its way back: `finalizeMatchTombstone`, `requeueDeadLetter` and
-- `acquireMatchLease` of apps/api/src/modules/redis/redis.lease.ts together.
pub mod Burial
use mathlib.Core.List.{append_cancel_left, append_cancel_right, tail-eq_of_cons-eq}
use mathlib.Core.Bool.{true≢false}
use the_arena_of.Prelude.{
  ℕ, zero, suc, ◌+◌, ◌*◌, ◌≤◌, ◌<◌, ◌≡◌, ◌≢◌, refl, sym, ap, subst, ◌∙◌, ◌⊎◌, inl, inr, Bool, true,
  false, not, ◌||◌, ◌&&◌, [], ◌∷◌, ◌++◌, Option, none, some, arith, ◌==◌, list_eq, nat_eq,
  if◌then◌else◌, Bool-cases, nat_beq, leb, ltb, Option-cases, list_beq_iff, ==_refl,
}
use the_arena_of.Prelude.Dict.{is_some}
use the_arena_of.Text.{Str, lit, decimal}
use the_arena_of.Text.Decimals.{decimal_inj, is_canonical, decimal-is_canonical}
use the_arena_of.Lease.Redis.{Redis, SameKey, IsRedis}
use the_arena_of.Lease.Tombstone.{TombstoneReason}
use the_arena_of.Lease.Keys.{
  active_set, dead_letter_set, fence_key, owner_key, tombstone_key, state_key, revision_key,
}
use the_arena_of.Lease.Scripts.{
  Numerals, IsNumerals, Acquired, acquired, held, terminal, malformed, Written, retry, Finalized,
  stale, lease_value, fenced_state_set, fenced_state_delete, finalize_match_tombstone,
  acquire_lease_with_fence, acquire_match_lease, is_live, reads, claim, read_claim, read_fence,
  still_owns,
}
use the_arena_of.Lease.Cluster.{Reach}
use the_arena_of.Lease.Cluster.Fences.{Counts, Fenced, Advances, advance, claim-Advances, claimed}
use the_arena_of.Lease.Cluster.Growth.{reach-Fenced}
use the_arena_of.Lease.Fencing.{Owns, Acquires, Acquires-Owns}
use the_arena_of.Lease.Fencing.{Owns, Acquires, Acquires-Owns}
use the_arena_of.Lease.Tombstone.{
  Tombstone, parse_tombstone, TombstoneReason, finished, dead_letter, cleaned, lua_gate, Gate,
  invalid, final, passes, max_safe_integer,
}
use the_arena_of.Lease.Tombstone.Agree.{
  reason_gate, gate_of, lua_gate-parse_tombstone, marker, parse_tombstone-marker,
}
use the_arena_of.Lease.Scripts.{
  requeue, requeue_passed, requeue_marked, requeue_gated, requeue_dead_letter, Requeued, requeued,
  not_terminal, invalid_tombstone, already_final, no_state, conflict, finalized, list_dead_letter,
}
use the_arena_of.Lease.Keys.{requeue_keys}

-- The reply that an operator should get, by the parsed marker.
abbrev pub reason_reply : TombstoneReason → Bool → Bool → Bool → Requeued
reason_reply finished has_state live force = already_final
reason_reply cleaned has_state live force = already_final
reason_reply dead_letter has_state live force =
    if not has_state then no_state else if live && not force then conflict else requeued

abbrev pub tombstone_reply : Option Tombstone → Bool → Bool → Bool → Requeued
tombstone_reply none has_state live force = invalid_tombstone
tombstone_reply (some t) has_state live force = reason_reply t.reason has_state live force

abbrev pub requeue_reply : Option Str → Bool → Bool → Bool → Requeued
requeue_reply none has_state live force = not_terminal
requeue_reply (some value) has_state live force =
    tombstone_reply (parse_tombstone value) has_state live force

pub is_live-lease_value : (node : Str) (a : ℕ) → is_live (some (lease_value node a)) ≡ true
is_live-lease_value [] a = refl
is_live-lease_value (c ∷ node) a = refl

module _ {ℓ} {S : Type ℓ} (redis : Redis S) (laws : IsRedis redis) (id : Str) where
  -- All or nothing: the call was answered so, and any other answer than REQUEUED left the store alone.
  abbrev pub Answered : Requeued → S → Requeued × S → Type ℓ
  Answered expected s r = (r.0 ≡ expected) × ((r.0 ≡ requeued) ⊎ (r.1 ≡ s))

  passed-Answered :
      (s t : S) (has_state live force : Bool)
      → Answered (reason_reply dead_letter has_state live force) s (
          if not has_state
          then (no_state, s)
          else if live && not force
          then (conflict, s)
          else (requeued, t))
  passed-Answered s t false live force = (refl, inr refl)
  passed-Answered s t true false force = (refl, inl refl)
  passed-Answered s t true true false = (refl, inr refl)
  passed-Answered s t true true true = (refl, inl refl)

  reason-Answered :
      (force : Bool) (s : S) (r : TombstoneReason)
      → Answered
          (reason_reply r
            (redis.exists s (state_key id))
            (is_live (redis.get s (owner_key id)))
            force)
          s
          (requeue_marked redis (requeue_keys id) id force s (reason_gate (some r)))
  reason-Answered force s finished = (refl, inr refl)
  reason-Answered force s cleaned = (refl, inr refl)
  reason-Answered force s dead_letter =
      passed-Answered s
        (requeue redis (requeue_keys id) id (is_live (redis.get s (owner_key id))) s)
        (redis.exists s (state_key id)) (is_live (redis.get s (owner_key id))) force

  gated-Answered :
      (force : Bool) (s : S) (o : Option Tombstone)
      → Answered
          (tombstone_reply o
            (redis.exists s (state_key id))
            (is_live (redis.get s (owner_key id)))
            force)
          s
          (requeue_marked redis (requeue_keys id) id force s (gate_of o))
  gated-Answered force s none = (refl, inr refl)
  gated-Answered force s (some t) = reason-Answered force s t.reason

  marker-Answered :
      (force : Bool) (s : S) (o : Option Str)
      → Answered
          (requeue_reply o
            (redis.exists s (state_key id))
            (is_live (redis.get s (owner_key id)))
            force)
          s
          (requeue_gated redis (requeue_keys id) id force s o)
  marker-Answered force s none = (refl, inr refl)
  marker-Answered force s (some value) =
      rw (lua_gate-parse_tombstone value) (gated-Answered force s (parse_tombstone value))

  -- A requeue is answered by the marker as `parseTombstone` reads it, then by the stored state, then by
  -- the live owner and the force flag; every answer but REQUEUED leaves the whole store as it was.
  pub requeue_dead_letter-Answered :
      (force : Bool) (s : S)
      → let reply =
          requeue_reply
            (redis.get s (tombstone_key id))
            (redis.exists s (state_key id))
            (is_live (redis.get s (owner_key id)))
            force in
        Answered reply s (requeue_dead_letter redis (requeue_keys id) id force s)
  unfolding requeue_dead_letter
  requeue_dead_letter-Answered force s = marker-Answered force s (redis.get s (tombstone_key id))

  -- The store after the owner has finalized its match as a dead letter.
  abbrev pub buried : Str → ℕ → ℕ → S → S
  buried node a ttl s =
      redis.sadd
        (redis.srem (redis.set_ex s (tombstone_key id) (marker dead_letter a) ttl) active_set id)
        dead_letter_set id

  -- A string key that burying leaves alone.
  pub buried_same :
      (node : Str) (a ttl : ℕ) (s : S) (k : Str)
      → (tombstone_key id == k) ≡ false
      → redis.get (buried node a ttl s) k ≡ redis.get s k
  buried_same node a ttl s k h =
      (laws.sadd_same _ dead_letter_set id k).0
      ∙ (laws.srem_same _ active_set id k).0
      ∙ (laws.set_ex_other s (tombstone_key id) (marker dead_letter a) ttl k h).0

  pub buried-tombstone :
      (node : Str) (a ttl : ℕ) (s : S)
      → 1 ≤ ttl
      → redis.get (buried node a ttl s) (tombstone_key id) ≡ some (marker dead_letter a)
  buried-tombstone node a ttl s h =
      (laws.sadd_same _ dead_letter_set id (tombstone_key id)).0
      ∙ (laws.srem_same _ active_set id (tombstone_key id)).0
      ∙ laws.set_ex-get s (tombstone_key id) (marker dead_letter a) ttl h

  -- What a forced requeue of a match with a live owner leaves behind.
  pub raised :
      (t : S)
      → let u = requeue redis (requeue_keys id) id true t in
        (redis.get u (tombstone_key id) ≡ none)
        × (redis.get u (owner_key id) ≡ none)
        × (redis.member u active_set id ≡ true)
        × (redis.member u dead_letter_set id ≡ false)
  raised t = (
    string_key (tombstone_key id) ∙ laws.del-get fenced (tombstone_key id),
    string_key (owner_key id)
        ∙ (laws.del_other fenced (tombstone_key id) (owner_key id) refl).0
        ∙ (laws.incr_other _ (fence_key id) (owner_key id) refl).0
        ∙ laws.del-get t (owner_key id),
    laws.srem_other _ dead_letter_set id active_set id refl ∙ laws.sadd-member _ active_set id,
    laws.srem-member _ dead_letter_set id,
  )
    where
      fenced : S
      fenced = (redis.incr (redis.del t (owner_key id)) (fence_key id)).1

      string_key :
          (k : Str)
          → redis.get (requeue redis (requeue_keys id) id true t) k
            ≡ redis.get (redis.del fenced (tombstone_key id)) k
      string_key k =
          (laws.srem_same _ dead_letter_set id k).0 ∙ (laws.sadd_same _ active_set id k).0
