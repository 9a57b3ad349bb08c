-- ===== src/Lease/Requeue/Burial.antt =====
-- A match finalized as a dead letter, and what the later calls find.

use the_arena_of.Prelude.{
  ℕ, ◌≤◌, ◌≡◌, refl, sym, ap, subst, ◌∙◌, Bool, true, false, not, Option, none, some, arith,
  list_eq, nat_eq, if◌then◌else◌, list_beq_iff,
}
use the_arena_of.Text.{Str}
use the_arena_of.Lease.Redis.{Redis, IsRedis}
use the_arena_of.Lease.Keys.{
  active_set, dead_letter_set, fence_key, owner_key, tombstone_key, state_key,
}
use the_arena_of.Lease.Scripts.{
  Numerals, terminal, Finalized, lease_value, finalize_match_tombstone, acquire_match_lease, reads,
  still_owns,
}
use the_arena_of.Lease.Tombstone.{dead_letter, max_safe_integer}
use the_arena_of.Lease.Tombstone.Agree.{lua_gate-parse_tombstone, marker, parse_tombstone-marker}
use the_arena_of.Lease.Scripts.{
  requeue, requeue_dead_letter, Requeued, requeued, conflict, finalized,
}
use the_arena_of.Lease.Keys.{requeue_keys}
use the_arena_of.Lease.Requeue.{buried, buried_same, buried-tombstone, raised, is_live-lease_value}

module _ {ℓ} {S : Type ℓ} (redis : Redis S) (laws : IsRedis redis) (numerals : Numerals)
    (id : Str) where
  -- A requeue that went through: the match is listed as active again, the mark and the listing as a dead
  -- letter are gone, and the last owner is shut out.
  abbrev pub Raised : Str → ℕ → Requeued × S → Type 0
  Raised node a r =
      (r.0 ≡ requeued)
      × (redis.get r.1 (tombstone_key id) ≡ none)
      × (redis.member r.1 active_set id ≡ true)
      × (redis.member r.1 dead_letter_set id ≡ false)
      × (still_owns redis (owner_key id) (fence_key id) (lease_value node a) a r.1 ≡ false)

  -- A dead letter is not taken over by anyone; it is requeued, while its last owner's lease lives, by force.
  abbrev pub Buried : Str → ℕ → S → Type ℓ
  Buried node a t =
      ((other : Str) (ttl : ℕ)
        → acquire_match_lease redis numerals (owner_key id) (fence_key id) (tombstone_key id) other
            ttl t
          ≡ (terminal, t))
      × (requeue_dead_letter redis (requeue_keys id) id false t ≡ (conflict, t))
      × Raised node a (requeue_dead_letter redis (requeue_keys id) id true t)

  requeue_live :
      (node : Str) (a : ℕ) (t : S) (force : Bool)
      → 1 ≤ a
      → a ≤ max_safe_integer
      → redis.get t (tombstone_key id) ≡ some (marker dead_letter a)
      → redis.exists t (state_key id) ≡ true
      → redis.get t (owner_key id) ≡ some (lease_value node a)
      → requeue_dead_letter redis (requeue_keys id) id force t ≡ (
          if not force
          then (conflict, t)
          else (requeued, requeue redis (requeue_keys id) id true t))
  unfolding requeue_dead_letter
  requeue_live node a t force p q tomb state owner =
      rw
        (
          tomb,
          lua_gate-parse_tombstone (marker dead_letter a),
          parse_tombstone-marker dead_letter a p q,
          state,
          owner,
          is_live-lease_value node a,
        )
        refl

  Buried-live :
      (node : Str) (a : ℕ) (t : S)
      → 1 ≤ a
      → a ≤ max_safe_integer
      → redis.get t (tombstone_key id) ≡ some (marker dead_letter a)
      → redis.exists t (state_key id) ≡ true
      → redis.get t (owner_key id) ≡ some (lease_value node a)
      → Buried node a t
  unfolding acquire_match_lease
  Buried-live node a t p q tomb state owner = (
    λ other ttl. rw (laws.exists-some t (tombstone_key id) _ tomb) refl,
    requeue_live node a t false p q tomb state owner,
    subst (Raised node a) (sym (requeue_live node a t true p q tomb state owner))
        (refl, after.0, after.2, after.3, rw after.1 refl),
  )
    where
      after :
          let u = requeue redis (requeue_keys id) id true t in
          (redis.get u (tombstone_key id) ≡ none)
          × (redis.get u (owner_key id) ≡ none)
          × (redis.member u active_set id ≡ true)
          × (redis.member u dead_letter_set id ≡ false)
      after = raised redis laws id t

  finalize-buried :
      (node : Str) (a ttl : ℕ) (s : S)
      → still_owns redis (owner_key id) (fence_key id) (lease_value node a) a s ≡ true
      → finalize_match_tombstone redis
          (owner_key id)
          (fence_key id)
          (tombstone_key id)
          active_set
          dead_letter_set
          id
          (lease_value node a)
          a
          dead_letter
          ttl
          s
        ≡ (finalized, buried redis laws id node a ttl s)
  unfolding finalize_match_tombstone
  finalize-buried node a ttl s h = rw h refl

  -- The owner of a match whose state is stored finalizes it as a dead letter. In the store that this leaves, the
  -- claim that looks at the mark is answered TERMINAL, and an unforced requeue CONFLICT, and both change
  -- nothing. A forced requeue goes through: the match is active again, mark and dead letter are gone,
  -- and the last owner is shut out, although its lease was alive.
  pub finalize_match_tombstone-Buried :
      (node state : Str) (a ttl : ℕ) (s : S)
      → 1 ≤ ttl
      → 1 ≤ a
      → a ≤ max_safe_integer
      → redis.get s (state_key id) ≡ some state
      → still_owns redis (owner_key id) (fence_key id) (lease_value node a) a s ≡ true
      → let done =
          finalize_match_tombstone redis
            (owner_key id)
            (fence_key id)
            (tombstone_key id)
            active_set
            dead_letter_set
            id
            (lease_value node a)
            a
            dead_letter
            ttl
            s in
        (done.0 ≡ finalized) × Buried node a done.1
  finalize_match_tombstone-Buried node state a ttl s positive p q stored owns =
      subst (λ (r : Finalized × S). (r.0 ≡ finalized) × Buried node a r.1)
        (sym (finalize-buried node a ttl s owns))
        (
          refl,
          Buried-live node a t p q (buried-tombstone redis laws id node a ttl s positive)
              (laws.exists-some t (state_key id) state
                (buried_same redis laws id node a ttl s (state_key id) refl ∙ stored))
              (buried_same redis laws id node a ttl s (owner_key id) refl
                ∙ owner (redis.get s (owner_key id)) (ground (arith, owns))),
        )
    where
      t : S
      t = buried redis laws id node a ttl s

      owner : (o : Option Str) → reads o (lease_value node a) ≡ true → o ≡ some (lease_value node a)
      owner none h = cc
      owner (some v) h = ap some ((list_beq_iff v (lease_value node a)).0 h)
