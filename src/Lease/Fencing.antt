-- ===== src/Lease/Fencing.antt =====
-- What fencing tokens buy: an earlier owner of a match is shut out for good.
pub mod Owners
use mathlib.Core.List.{append_cancel_left, append_cancel_right, tail-eq_of_cons-eq}
use mathlib.Core.Bool.{true≢false}
use the_arena_of.Prelude.{
  ℕ, zero, suc, ◌+◌, ◌*◌, ◌≤◌, ◌<◌, ◌≡◌, ◌≢◌, refl, sym, ap, subst, ◌∙◌, ◌⊎◌, inl, inr, Bool, true,
  false, not, ◌||◌, ◌&&◌, ◌∷◌, ◌++◌, Option, none, some, arith, ◌==◌, list_eq, nat_eq,
  if◌then◌else◌, Bool-cases, nat_beq, leb, ltb, Option-cases, list_beq_iff, ==_refl,
}
use the_arena_of.Text.{Str, lit, decimal}
use the_arena_of.Text.Decimals.{decimal_inj, is_canonical, decimal-is_canonical}
use the_arena_of.Lease.Redis.{Redis, SameKey, IsRedis}
use the_arena_of.Lease.Tombstone.{TombstoneReason}
use the_arena_of.Lease.Keys.{
  active_set, dead_letter_set, fence_key, owner_key, tombstone_key, state_key, revision_key,
}
use the_arena_of.Lease.Scripts.{
  Numerals, IsNumerals, Acquired, acquired, held, terminal, malformed, Written, retry, Finalized,
  stale, lease_value, fenced_state_set, fenced_state_delete, finalize_match_tombstone,
  acquire_lease_with_fence, acquire_match_lease, is_live, reads, claim, read_claim, read_fence,
  still_owns,
}
use the_arena_of.Lease.Cluster.{Reach}
use the_arena_of.Lease.Cluster.Fences.{Counts, Fenced, Advances, advance, claim-Advances, claimed}
use the_arena_of.Lease.Cluster.Growth.{reach-Fenced}

-- A read fence is the one that was printed.
printed :
    (numerals : Numerals)
    → IsNumerals numerals
    → (n k : ℕ) → 1 ≤ k
    → numerals.tostring n ≡ decimal k
    → n ≡ k
printed numerals exact n k h e = elim (Bool-cases (ltb n 100000000000000)) [
  | inl below ↦ decimal_inj n k (sym (exact.tostring-decimal n (ground (arith, below))) ∙ e)
  | inr above ↦ absurd (
      true≢false (
        sym (decimal-is_canonical k h)
        ∙ (ap is_canonical (sym e) ∙ exact.tostring-exponent n (ground (arith, above)))))
]

not_malformed :
    (b : Bool) (k a : ℕ) (text lease : Str)
    → (if b then malformed else acquired k text) ≡ acquired a lease
    → (b ≡ false) × (k ≡ a) × (text ≡ lease)
not_malformed true k a text lease h = cc
not_malformed false k a text lease h = (refl, cc, cc)

module _ {ℓ} {S : Type ℓ} (redis : Redis S) (laws : IsRedis redis) (numerals : Numerals)
    (exact : IsNumerals numerals) (id : Str) where
  -- An acquisition through either primitive that returned a fence and a lease.
  read_fence-acquired :
      (node : Str) (n : ℕ) (o : Option ℕ) (a : ℕ) (lease : Str)
      → read_fence node (node ++ (58 ∷ numerals.tostring n)) o ≡ acquired a lease
      → (n ≡ a) × (lease ≡ lease_value node a) × (node ++ (58 ∷ numerals.tostring n) ≡ lease)
  read_fence-acquired node n none a lease h = cc
  read_fence-acquired node n (some k) a lease h =
      let text = node ++ (58 ∷ numerals.tostring n) in
      let r = not_malformed (not (leb 1 k) || not (text == lease_value node k)) k a text lease h in
      let same : text ≡ lease_value node k =
        (list_beq_iff text (lease_value node k)).0 (ground (arith, r.0)) in
      let digits : numerals.tostring n ≡ decimal k =
        tail-eq_of_cons-eq (append_cancel_left node _ _ same) in
      let exactly : n ≡ k = printed numerals exact n k (ground (arith, r.0)) digits in
      (exactly ∙ r.1, sym r.2 ∙ same ∙ ap (lease_value node) r.1, r.2)

  -- The node holds the newest fence and the lease that goes with it.
  pub record Owns (node : Str) (a : ℕ) (lease : Str) (t : S) : Type 0 where
    pub fenced : Fenced redis laws numerals id a t
    pub named : lease ≡ lease_value node a
    pub stored : redis.get t (owner_key id) ≡ some lease

  -- The call returned that fence and that lease, and left the store in that state.
  abbrev pub Acquires : Str → ℕ → S → ℕ → Str → S → Type ℓ
  Acquires node ttl s a lease t =
      (acquire_lease_with_fence redis numerals (owner_key id) (fence_key id) node ttl s
        ≡ (acquired a lease, t))
      ⊎ (acquire_match_lease redis numerals (owner_key id) (fence_key id) (tombstone_key id) node
            ttl s
          ≡ (acquired a lease, t))

  claim_reply :
      {u : S} {a : ℕ} {lease : Str} (node : Str) (s t : S) (text raw : Str) (live : Bool)
      → let reply : Option (Str × Str) × S = if live then (none, s) else (some (raw, text), t) in
        read_claim numerals node reply.0 ≡ acquired a lease
        → reply.1 ≡ u
        → (read_fence node text (numerals.to_integer raw) ≡ acquired a lease) × (t ≡ u)
  claim_reply node s t text raw true h e = cc
  claim_reply node s t text raw false h e = (h, e)

  claim-Owns :
      {f a : ℕ} {lease : Str} (node : Str) (ttl : ℕ) (s t : S)
      → 1 ≤ ttl
      → Fenced redis laws numerals id f s
      → read_claim numerals node (claim redis numerals (owner_key id) (fence_key id) node ttl s).0
        ≡ acquired a lease
      → (claim redis numerals (owner_key id) (fence_key id) node ttl s).1 ≡ t
      → (suc f ≡ a) × Owns node a lease t
  claim-Owns {f} {a} {lease} node ttl s t positive inv h e =
      (counted, record { named = read.1; stored = stored; fenced = fenced })
    where
      after : S
      after = (redis.incr s (fence_key id)).1

      n : ℕ
      n = (redis.incr s (fence_key id)).0

      reply :
          (read_fence node
              (node ++ (58 ∷ numerals.tostring n))
              (numerals.to_integer (numerals.tostring n))
            ≡ acquired a lease)
          × (redis.set_ex after (owner_key id) (node ++ (58 ∷ numerals.tostring n)) ttl ≡ t)
      reply = claim_reply node s _ _ _ (is_live (redis.get s (owner_key id))) h e

      read : (n ≡ a) × (lease ≡ lease_value node a) × (node ++ (58 ∷ numerals.tostring n) ≡ lease)
      read = read_fence-acquired node n (numerals.to_integer (numerals.tostring n)) a lease reply.0

      counted : suc f ≡ a
      counted = sym (advance redis laws numerals id f s inv.counts inv.persists).0 ∙ read.0

      fenced : Fenced redis laws numerals id a t
      fenced =
          subst (λ k. Fenced redis laws numerals id k t) counted
            (subst (Fenced redis laws numerals id (suc f)) reply.1
              (claimed redis laws numerals id node ttl s positive inv))

      stored : redis.get t (owner_key id) ≡ some lease
      stored =
          ap (λ u. redis.get u (owner_key id)) (sym reply.1)
          ∙ laws.set_ex-get after (owner_key id) (node ++ (58 ∷ numerals.tostring n)) ttl positive
          ∙ ap some read.2

  terminal_not :
      {t : S} {a : ℕ} {lease : Str} (s : S) (dead : Bool) (r : Acquired × S)
      → (if dead then (terminal, s) else r) ≡ (acquired a lease, t)
      → r ≡ (acquired a lease, t)
  terminal_not s true r h = absurd (terminal_acquired (ap (λ (x : Acquired × S). x.0) h))
    where
      terminal_acquired : {a : ℕ} {lease : Str} → terminal ≡ acquired a lease → ⊥
      terminal_acquired h = cc
  terminal_not s false r h = h

  -- A call that acquired the match counted up by one, and its caller holds the newest fence.
  pub Acquires-Owns :
      {f a : ℕ} {lease : Str} (node : Str) (ttl : ℕ) (s t : S)
      → 1 ≤ ttl
      → Fenced redis laws numerals id f s
      → Acquires node ttl s a lease t
      → (suc f ≡ a) × Owns node a lease t
  unfolding acquire_lease_with_fence acquire_match_lease
  Acquires-Owns node ttl s t p inv (inl h) =
      claim-Owns node ttl s t p inv (ap (λ (x : Acquired × S). x.0) h)
        (ap (λ (x : Acquired × S). x.1) h)
  Acquires-Owns node ttl s t p inv (inr h) =
      let r = terminal_not s (redis.exists s (tombstone_key id)) _ h in
      claim-Owns node ttl s t p inv (ap (λ (x : Acquired × S). x.0) r)
        (ap (λ (x : Acquired × S). x.1) r)
