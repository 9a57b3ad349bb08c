-- ===== src/Lease/Takeover.antt =====
-- An ownerless match taken over: `acquireMatchLease` and the first `fencedStateSet` after it
-- (apps/api/src/modules/redis/redis.lease.ts).

use the_arena_of.Prelude.{
  ◌||◌, leb, not, nat_beq_iff, ℕ, suc, ◌+◌, ◌≤◌, ◌<◌, ◌≡◌, refl, sym, subst, ◌∙◌, inl, inr, true,
  false, some, arith, ◌==◌, list_eq, nat_eq, ==_refl,
}
use the_arena_of.Text.{Str, decimal}
use the_arena_of.Lease.Redis.{Redis, IsRedis}
use the_arena_of.Lease.Keys.{fence_key, owner_key, tombstone_key, state_key, revision_key}
use the_arena_of.Lease.Scripts.{
  Numerals, IsNumerals, Acquired, acquired, Written, lease_value, fenced_state_set,
  acquire_match_lease, is_live, still_owns,
}
use the_arena_of.Lease.Cluster.Fences.{Fenced, advance}
use the_arena_of.Lease.Register.{Register, Agrees, fenced_state_set-Agrees, commit}
use the_arena_of.Lease.Scripts.{applied, is_live}

module _ {ℓ} {S : Type ℓ} (redis : Redis S) (laws : IsRedis redis) (numerals : Numerals)
    (exact : IsNumerals numerals) (id : Str) where
  -- The store after a node has taken the match with a fence.
  abbrev seized : Str → ℕ → ℕ → S → S
  seized node n ttl s =
      redis.set_ex (redis.incr s (fence_key id)).1 (owner_key id) (lease_value node n) ttl

  own_fence :
      (node : Str) (n : ℕ)
      → (not (leb 1 (suc n)) || not (lease_value node (suc n) == lease_value node (suc n))) ≡ false
  own_fence node n = ground (arith, ==_refl (lease_value node (suc n)))

  acquire-seized :
      {f : ℕ} (node : Str) (ttl : ℕ) (s : S)
      → 1 ≤ ttl
      → suc f < 100000000000000
      → Fenced redis laws numerals id f s
      → redis.exists s (tombstone_key id) ≡ false
      → is_live (redis.get s (owner_key id)) ≡ false
      → acquire_match_lease redis numerals
          (owner_key id)
          (fence_key id)
          (tombstone_key id)
          node
          ttl
          s
        ≡ (acquired (suc f) (lease_value node (suc f)), seized node (suc f) ttl s)
  unfolding acquire_match_lease
  acquire-seized {f} node ttl s positive small inv going quiet =
      rw
        (
          going,
          quiet,
          counts,
          exact.tostring-decimal (suc f) small,
          exact.to_integer-decimal (suc f) (omega (arith, small)),
          own_fence node f,
        )
        refl
    where
      counts : (redis.incr s (fence_key id)).0 ≡ suc f
      counts = (advance redis laws numerals id f s inv.counts inv.persists).0

  -- The register is where it was.
  seized-Agrees :
      {r : Register} (node : Str) (n ttl : ℕ) (s : S)
      → Agrees redis laws id r s
      → Agrees redis laws id r (seized node n ttl s)
  seized-Agrees node n ttl s a = record {
    revision = elim a.revision [
      | inl fresh ↦ inl (kept (revision_key id) refl refl ∙ fresh.0, fresh.1)
      | inr stored ↦ inr (kept (revision_key id) refl refl ∙ stored)
    ];
    blob = kept (state_key id) refl refl ∙ a.blob;
  }
    where
      kept :
          (k : Str)
          → (owner_key id == k) ≡ false
          → (fence_key id == k) ≡ false
          → redis.get (seized node n ttl s) k ≡ redis.get s k
      kept k p q =
          (laws.set_ex_other _ (owner_key id) (lease_value node n) ttl k p).0
          ∙ (laws.incr_other s (fence_key id) k q).0

  seized-still_owns :
      {f : ℕ} (node : Str) (ttl : ℕ) (s : S)
      → 1 ≤ ttl
      → Fenced redis laws numerals id f s
      → still_owns redis
          (owner_key id)
          (fence_key id)
          (lease_value node (suc f))
          (suc f)
          (seized node (suc f) ttl s)
        ≡ true
  seized-still_owns {f} node ttl s positive inv =
      rw
        (
          laws.set_ex-get (redis.incr s (fence_key id)).1 (owner_key id) (lease_value node (suc f))
              ttl positive,
          (laws.set_ex_other (redis.incr s (fence_key id)).1 (owner_key id)
              (lease_value node (suc f)) ttl (fence_key id) refl).0,
          (advance redis laws numerals id f s inv.counts inv.persists).1,
          ==_refl (lease_value node (suc f)),
          ==_refl (decimal (suc f)),
        )
        refl

  -- A match that is not over and has no live owner, its lease expired for instance, can be taken by any
  -- node: the acquisition returns the next fence, and the new owner's first write at the stored revision
  -- is applied. The fence is below Lua's limit of 14 printed digits.
  pub taken_over :
      {f : ℕ} {r : Register} (node : Str) (ttl keep : ℕ) (blob : Str) (s : S)
      → 1 ≤ ttl
      → 1 ≤ keep
      → suc f < 100000000000000
      → Fenced redis laws numerals id f s
      → Agrees redis laws id r s
      → redis.exists s (tombstone_key id) ≡ false
      → is_live (redis.get s (owner_key id)) ≡ false
      → let reply =
          acquire_match_lease redis numerals
            (owner_key id)
            (fence_key id)
            (tombstone_key id)
            node
            ttl
            s in
        let write =
          fenced_state_set redis
            (owner_key id)
            (fence_key id)
            (state_key id)
            (revision_key id)
            (lease_value node (suc f))
            (suc f)
            blob
            keep
            r.revision
            (r.revision + 1)
            reply.1 in
        (reply.0 ≡ acquired (suc f) (lease_value node (suc f)))
        × (write.0 ≡ applied)
        × Agrees redis laws id (record { revision = r.revision + 1; blob = some blob }) write.1
  taken_over {f} {r} node ttl keep blob s positive kept small inv agrees going quiet =
      subst
        (λ (x : Acquired × S).
          let write =
            fenced_state_set redis (owner_key id) (fence_key id) (state_key id) (revision_key id)
              (lease_value node (suc f)) (suc f) blob keep r.revision (r.revision + 1) x.1 in
          (x.0 ≡ acquired (suc f) (lease_value node (suc f)))
          × (write.0 ≡ applied)
          × Agrees redis laws id (record { revision = r.revision + 1; blob = some blob }) write.1)
        (sym (acquire-seized node ttl s positive small inv going quiet)) (refl, done.0, done.1)
    where
      t : S
      t = seized node (suc f) ttl s

      accepted :
          commit
            (still_owns redis (owner_key id) (fence_key id) (lease_value node (suc f)) (suc f) t)
            r.revision
            (r.revision + 1)
            blob
            r
          ≡ (applied, record { revision = r.revision + 1; blob = some blob })
      accepted =
          rw
            (
              seized-still_owns node ttl s positive inv,
              (nat_beq_iff r.revision r.revision).1 refl,
              (nat_beq_iff (r.revision + 1) (r.revision + 1)).1 refl,
            )
            refl

      done :
          let write =
            fenced_state_set redis
              (owner_key id)
              (fence_key id)
              (state_key id)
              (revision_key id)
              (lease_value node (suc f))
              (suc f)
              blob
              keep
              r.revision
              (r.revision + 1)
              t in
          (write.0 ≡ applied)
          × Agrees redis laws id (record { revision = r.revision + 1; blob = some blob }) write.1
      done =
          let write =
            fenced_state_set redis (owner_key id) (fence_key id) (state_key id) (revision_key id)
              (lease_value node (suc f)) (suc f) blob keep r.revision (r.revision + 1) t in
          subst (λ (c : Written × Register). (write.0 ≡ c.0) × Agrees redis laws id c.1 write.1)
            accepted
            (fenced_state_set-Agrees redis laws id (lease_value node (suc f)) (suc f) blob keep
              r.revision (r.revision + 1) kept (seized-Agrees node (suc f) ttl s agrees))
