-- ===== src/Lease/Cluster/Growth.antt =====
-- The calls of the cluster one by one: each keeps the counter and the lease that goes with it.
use the_arena_of.Prelude.{
  ℕ, ◌+◌, ◌*◌, ◌≤◌, refl, ap, ◌∙◌, inl, inr, not, ◌∷◌, ◌++◌, arith, list_eq, nat_eq, nat_beq,
}
use the_arena_of.Text.{Str, decimal}
use the_arena_of.Lease.Redis.{Redis, IsRedis}
use the_arena_of.Lease.Tombstone.{reason_text}
use the_arena_of.Lease.Keys.{
  active_set, fence_key, owner_key, tombstone_key, state_key, revision_key,
}
use the_arena_of.Lease.Scripts.{
  Numerals, renew_lease, release_lease, release_lease_and_index, fenced_state_set,
  fenced_state_delete, remove_active_if_state_absent, remove_index_member_if_value_unchanged,
  remove_active_if_tombstoned, finalize_match_tombstone, requeue_dead_letter,
  acquire_lease_with_fence, acquire_match_lease, is_live, reads, still_owns, revision_matches,
  unchanged,
}
use the_arena_of.Lease.Cluster.{
  Call, acquires, acquires_match, renews, releases, releases_index, writes, deletes,
  drops_stateless, drops_unchanged, drops_tombstoned, finalizes, requeues, step, Drifts, Reach,
  here, call, drift,
}
use the_arena_of.Lease.Cluster.Fences.{
  Fenced, Advances, choose, keeps, keeps_gone, stays, claim-Advances, set_ex-Untouched,
  del-Untouched, srem-Untouched, released, requeue_gated-Advances, list_dead_letter-keeps,
  Counts-same,
}

module _ {ℓ} {S : Type ℓ} (redis : Redis S) (laws : IsRedis redis) (numerals : Numerals)
    (id : Str) where
  -- Each call keeps redis laws numerals id the invariant, and the fence it counts to does not fall.
  pub step-Advances :
      {f : ℕ} {s : S} (c : Call)
      → Fenced redis laws numerals id f s
      → Advances redis laws numerals id f (step redis numerals id c s)
  unfolding step acquire_lease_with_fence acquire_match_lease renew_lease release_lease
      release_lease_and_index fenced_state_set fenced_state_delete remove_active_if_state_absent
      remove_index_member_if_value_unchanged remove_active_if_tombstoned finalize_match_tombstone
      requeue_dead_letter
  step-Advances {f} {s} (acquires node ttl h) inv =
      claim-Advances redis laws numerals id f node ttl s h inv
  step-Advances {f} {s} (acquires_match node ttl h) inv =
      choose (Advances redis laws numerals id f) (redis.exists s (tombstone_key id)) _ _
        (λ _. stays redis laws numerals id inv)
        (λ _. claim-Advances redis laws numerals id f node ttl s h inv)
  step-Advances {f} {s} (renews lease ttl h) inv =
      choose (Advances redis laws numerals id f) (reads (redis.get s (owner_key id)) lease) _ _
        (λ _. stays redis laws numerals id (renewed s (omega arith) inv))
        (λ _. stays redis laws numerals id inv)
    where
      renewed :
          (t : S)
          → 1 ≤ ttl * 1000
          → Fenced redis laws numerals id f t
          → Fenced redis laws numerals id f (redis.pexpire t (owner_key id) (ttl * 1000)).1
      renewed t long i =
          let other = laws.pexpire_other t (owner_key id) (ttl * 1000) (fence_key id) refl in
          let same = laws.pexpire-get t (owner_key id) (ttl * 1000) long in
          record {
            persists = other.1 ∙ i.persists;
            counts = Counts-same redis laws numerals id f other i.counts;
            owned = elim i.owned [
              | inl quiet ↦ inl (ap is_live same ∙ quiet)
              | inr taken ↦ inr (taken.0, same ∙ taken.1)
            ];
          }
  step-Advances {f} {s} (releases lease) inv =
      choose (Advances redis laws numerals id f) (reads (redis.get s (owner_key id)) lease) _ _
        (λ _. stays redis laws numerals id (released redis laws numerals id inv))
        (λ _. stays redis laws numerals id inv)
  step-Advances {f} {s} (releases_index lease) inv =
      choose (Advances redis laws numerals id f) (reads (redis.get s (owner_key id)) lease) _ _
        (λ _. stays redis laws numerals id (
          keeps redis laws numerals id (srem-Untouched redis laws numerals id _ active_set id)
            (released redis laws numerals id inv)))
        (λ _. stays redis laws numerals id inv)
  step-Advances {f} {s} (writes lease fence blob ttl expected next h) inv =
      choose (Advances redis laws numerals id f)
        (not (still_owns redis (owner_key id) (fence_key id) lease fence s)) _ _
        (λ _. stays redis laws numerals id inv)
        (λ _.
          choose (Advances redis laws numerals id f)
            (not (revision_matches (redis.get s (revision_key id)) expected)) _ _
            (λ _. stays redis laws numerals id inv)
            (λ _.
              choose (Advances redis laws numerals id f) (not (nat_beq next (expected + 1))) _ _
                (λ _. stays redis laws numerals id inv)
                (λ _. stays redis laws numerals id (
                  keeps redis laws numerals id
                    (set_ex-Untouched redis laws numerals id _ (revision_key id) (decimal next) ttl
                      refl refl)
                    (keeps redis laws numerals id
                      (set_ex-Untouched redis laws numerals id _ (state_key id) blob ttl refl refl)
                      inv)))))
  step-Advances {f} {s} (deletes lease fence) inv =
      choose (Advances redis laws numerals id f)
        (not (still_owns redis (owner_key id) (fence_key id) lease fence s)) _ _
        (λ _. stays redis laws numerals id inv)
        (λ _. stays redis laws numerals id (
          keeps redis laws numerals id
            (del-Untouched redis laws numerals id _ (revision_key id) refl refl)
            (keeps redis laws numerals id
              (del-Untouched redis laws numerals id _ (state_key id) refl refl) inv)))
  step-Advances {f} {s} drops_stateless inv =
      choose (Advances redis laws numerals id f) (redis.exists s (state_key id)) _ _
        (λ _. stays redis laws numerals id inv)
        (λ _. stays redis laws numerals id (
          keeps redis laws numerals id (srem-Untouched redis laws numerals id _ active_set id) inv))
  step-Advances {f} {s} (drops_unchanged observed) inv =
      choose (Advances redis laws numerals id f)
        (not (unchanged (redis.get s (owner_key id)) observed)) _ _
        (λ _. stays redis laws numerals id inv)
        (λ _. stays redis laws numerals id (
          keeps redis laws numerals id (srem-Untouched redis laws numerals id _ active_set id) inv))
  step-Advances {f} {s} drops_tombstoned inv =
      choose (Advances redis laws numerals id f) (not (redis.exists s (tombstone_key id))) _ _
        (λ _. stays redis laws numerals id inv)
        (λ _. stays redis laws numerals id (
          keeps redis laws numerals id (srem-Untouched redis laws numerals id _ active_set id) inv))
  step-Advances {f} {s} (finalizes lease fence reason ttl h) inv =
      choose (Advances redis laws numerals id f)
        (not (still_owns redis (owner_key id) (fence_key id) lease fence s)) _ _
        (λ _. stays redis laws numerals id inv)
        (λ _. stays redis laws numerals id (
          list_dead_letter-keeps redis laws numerals id reason (
            keeps redis laws numerals id (srem-Untouched redis laws numerals id _ active_set id) (
              keeps redis laws numerals id
                (set_ex-Untouched redis laws numerals id _ (tombstone_key id)
                  (reason_text reason ++ (58 ∷ decimal fence)) ttl refl refl)
                inv))))
  step-Advances {f} {s} (requeues force) inv =
      requeue_gated-Advances redis laws numerals id force (redis.get s (tombstone_key id)) inv

  drift-Fenced :
      {f : ℕ} {s t : S}
      → Drifts redis numerals id s t
      → Fenced redis laws numerals id f s
      → Fenced redis laws numerals id f t
  drift-Fenced d inv = elim d.owner [
    | inl same ↦ record {
      persists = (d.fence inv.persists).1 ∙ inv.persists;
      counts = Counts-same redis laws numerals id _ (d.fence inv.persists) inv.counts;
      owned = elim inv.owned [
        | inl quiet ↦ inl (ap is_live same ∙ quiet)
        | inr taken ↦ inr (taken.0, same ∙ taken.1)
      ];
    }
    | inr gone ↦ keeps_gone redis laws numerals id gone (d.fence inv.persists) inv
  ]

  -- Whatever the processes of the cluster call, and whatever expires in between: the fence of a match
  -- never falls, and a live lease is one that was written for the newest fence.
  pub reach-Fenced :
      {f : ℕ} {s t : S}
      → Fenced redis laws numerals id f s
      → Reach redis numerals id s t
      → (g : ℕ) × (f ≤ g) × Fenced redis laws numerals id g t
  reach-Fenced {f} inv here = (f, omega arith, inv)
  reach-Fenced {f} inv (call r c) =
      let before = reach-Fenced inv r in
      let after = step-Advances c before.2 in (after.0, omega (arith, before.1, after.1), after.2)
  reach-Fenced {f} inv (drift r d) =
      let before = reach-Fenced inv r in (before.0, before.1, drift-Fenced d before.2)
