-- ===== src/Lease/Fencing/Owners.antt =====
-- Owners of a match, one after the other: what each may still write.

use the_arena_of.Prelude.{
  ℕ, zero, suc, ◌≤◌, ◌<◌, ◌≡◌, refl, ap, inl, inr, Bool, true, false, not, ◌&&◌, some, arith, ◌==◌,
  list_eq, nat_eq, if◌then◌else◌, Bool-cases, list_beq_iff,
}
use the_arena_of.Text.{Str, decimal}
use the_arena_of.Text.Decimals.{decimal_inj}
use the_arena_of.Lease.Redis.{Redis, IsRedis}
use the_arena_of.Lease.Tombstone.{TombstoneReason}
use the_arena_of.Lease.Keys.{
  active_set, dead_letter_set, fence_key, owner_key, tombstone_key, state_key, revision_key,
}
use the_arena_of.Lease.Scripts.{
  Numerals, IsNumerals, retry, stale, fenced_state_set, fenced_state_delete,
  finalize_match_tombstone, reads, still_owns,
}
use the_arena_of.Lease.Cluster.{Reach}
use the_arena_of.Lease.Cluster.Fences.{Fenced, Advances}
use the_arena_of.Lease.Cluster.Growth.{reach-Fenced}
use the_arena_of.Lease.Fencing.{Owns, Acquires, Acquires-Owns}

-- A test that is known.
if_true {ℓ} : {A : Type ℓ} (b : Bool) (x y : A) → b ≡ true → (if b then x else y) ≡ x
if_true true x y h = refl
if_true false x y h = cc

module _ {ℓ} {S : Type ℓ} (redis : Redis S) (laws : IsRedis redis) (numerals : Numerals)
    (exact : IsNumerals numerals) (id : Str) where
  counted :
      {f : ℕ} {s : S}
      → 1 ≤ f
      → Fenced redis laws numerals id f s
      → redis.get s (fence_key id) ≡ some (decimal f)
  counted {f = zero} h inv = absurd (omega arith)
  counted {f = suc f} h inv = inv.counts

  behind :
      {f a : ℕ} {s : S} (lease : Str)
      → a < f
      → Fenced redis laws numerals id f s
      → still_owns redis (owner_key id) (fence_key id) lease a s ≡ false
  behind {f} {a} {s} lease h inv = elim (Bool-cases (decimal f == decimal a)) [
    | inl same ↦
        let f≡a : f ≡ a = decimal_inj f a ((list_beq_iff (decimal f) (decimal a)).0 same) in
        absurd (omega (arith, h, f≡a))
    | inr differ ↦
        rw (counted (omega (arith, h)) inv, differ)
          (and_false (reads (redis.get s (owner_key id)) lease))
  ]
    where
      and_false : (b : Bool) → (b && false) ≡ false
      and_false b = ground arith

  -- A node that acquired a match, and then lost it to another acquisition, is shut out for good: from
  -- then on, whatever the processes call and whatever expires, each write, deletion or finalization
  -- under its lease and fence is refused and changes nothing. The second fence is the greater one.
  pub shut_out :
      {f a b : ℕ} {s t u v : S} {lease next_lease : Str} (node other : Str) (ttl other_ttl : ℕ)
      → 1 ≤ ttl
      → 1 ≤ other_ttl
      → Fenced redis laws numerals id f s
      → Acquires redis laws numerals exact id node ttl s a lease t
      → {t' : S} → Reach redis numerals id t t'
      → Acquires redis laws numerals exact id other other_ttl t' b next_lease u
      → Reach redis numerals id u v
      → (blob : Str) (keep expected next : ℕ) (reason : TombstoneReason)
      → (a < b)
        × (fenced_state_set redis
              (owner_key id)
              (fence_key id)
              (state_key id)
              (revision_key id)
              lease
              a
              blob
              keep
              expected
              next
              v
            ≡ (retry, v))
        × (fenced_state_delete redis
              (owner_key id)
              (fence_key id)
              (state_key id)
              (revision_key id)
              lease
              a
              v
            ≡ (false, v))
        × (finalize_match_tombstone redis
              (owner_key id)
              (fence_key id)
              (tombstone_key id)
              active_set
              dead_letter_set
              id
              lease
              a
              reason
              keep
              v
            ≡ (stale, v))
  unfolding fenced_state_set fenced_state_delete finalize_match_tombstone
  shut_out {f} {a} {b} {s} {t} {u} {v} {lease} {next_lease} node other ttl other_ttl p q inv first
        {t'} between second later blob keep expected next reason =
      (
        omega (arith, grown, mid.1, behind_second),
        if_true _ _ _ lost,
        if_true _ _ _ lost,
        if_true _ _ _ lost,
      )
    where
      mid : Advances redis laws numerals id a t'
      mid =
          reach-Fenced redis laws numerals id
            (Acquires-Owns redis laws numerals exact id node ttl s t p inv first).1.fenced between

      second_owner : (suc mid.0 ≡ b) × Owns redis laws numerals exact id other b next_lease u
      second_owner = Acquires-Owns redis laws numerals exact id other other_ttl t' u q mid.2 second

      grown : suc mid.0 ≡ b
      grown = second_owner.0

      behind_second : a ≤ mid.0
      behind_second = mid.1

      last : Advances redis laws numerals id b v
      last = reach-Fenced redis laws numerals id second_owner.1.fenced later

      lost : not (still_owns redis (owner_key id) (fence_key id) lease a v) ≡ true
      lost = ap not (behind lease (omega (arith, grown, behind_second, last.1)) last.2)
