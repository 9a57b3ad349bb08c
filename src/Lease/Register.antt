-- ===== src/Lease/Register.antt =====
-- The canonical state of a match as a register with a revision: what `fencedStateSet` and
-- `fencedStateDelete` of apps/api/src/modules/redis/redis.lease.ts promise their callers.

use mathlib.Core.Bool.{true≢false}
use the_arena_of.Prelude.{
  nat_beq_iff, ℕ, ◌+◌, ◌≤◌, ◌≡◌, refl, sym, ◌∙◌, ◌⊎◌, inl, inr, Bool, true, false, not, ◌&&◌,
  Option, none, some, arith, ◌==◌, list_eq, nat_eq, if◌then◌else◌, Bool-cases, nat_beq,
  list_beq_iff, ==_refl,
}
use the_arena_of.Text.{Str, decimal}
use the_arena_of.Text.Decimals.{decimal_inj}
use the_arena_of.Lease.Redis.{Redis, IsRedis}
use the_arena_of.Lease.Keys.{fence_key, owner_key, state_key, revision_key}
use the_arena_of.Lease.Scripts.{Written, retry, fenced_state_set, fenced_state_delete, still_owns}
use the_arena_of.Lease.Scripts.{revision_matches, applied}

pub record Register : Type 0 where
  pub revision : ℕ
  pub blob : Option Str

-- A write goes through for the owner who has seen the latest revision and numbers the next one.
abbrev pub commit : Bool → ℕ → ℕ → Str → Register → Written × Register
commit owns expected next blob r =
    if owns && nat_beq expected r.revision && nat_beq next (expected + 1)
    then (applied, record { revision = next; blob = some blob })
    else (retry, r)

-- A removal leaves the register as it was before the first write.
abbrev pub erase : Bool → Register → Bool × Register
erase owns r = if owns then (true, record { revision = 0; blob = none }) else (false, r)

decimal_beq : (a b : ℕ) → (decimal a == decimal b) ≡ nat_beq a b
decimal_beq a b = elim (Bool-cases (nat_beq a b)) [
  | inl same ↦ rw ((nat_beq_iff a b).0 same) (==_refl (decimal b) ∙ sym ((nat_beq_iff b b).1 refl))
  | inr differ ↦ elim (Bool-cases (decimal a == decimal b)) [
    | inl equal ↦ absurd (
        true≢false (
          sym
            ((nat_beq_iff a b).1 (decimal_inj a b ((list_beq_iff (decimal a) (decimal b)).0 equal)))
          ∙ differ))
    | inr differ_too ↦ differ_too ∙ sym differ
  ]
]

module _ {ℓ} {S : Type ℓ} (redis : Redis S) (laws : IsRedis redis) (id : Str) where
  -- The two keys hold the register; the initial revision need not be stored.
  pub record Agrees (r : Register) (s : S) : Type 0 where
    pub revision :
        ((redis.get s (revision_key id) ≡ none) × (r.revision ≡ 0))
        ⊎ (redis.get s (revision_key id) ≡ some (decimal r.revision))
    pub blob : redis.get s (state_key id) ≡ r.blob

  revision_matches-Agrees :
      {r : Register} {s : S} (expected : ℕ)
      → Agrees r s
      → revision_matches (redis.get s (revision_key id)) expected ≡ nat_beq expected r.revision
  unfolding decimal
  revision_matches-Agrees {r} expected a = elim a.revision [
    | inl fresh ↦ rw (fresh.0, fresh.1) (decimal_beq expected 0)
    | inr stored ↦ rw stored (decimal_beq r.revision expected ∙ ground arith)
  ]

  written :
      (s : S) (blob : Str) (ttl next : ℕ)
      → 1 ≤ ttl
      → Agrees
          (record { revision = next; blob = some blob })
          (redis.set_ex
            (redis.set_ex s (state_key id) blob ttl)
            (revision_key id)
            (decimal next)
            ttl)
  written s blob ttl next h = record {
    revision = inr (laws.set_ex-get _ (revision_key id) (decimal next) ttl h);
    blob =
        (laws.set_ex_other _ (revision_key id) (decimal next) ttl (state_key id) refl).0
        ∙ laws.set_ex-get s (state_key id) blob ttl h;
  }

  -- `fencedStateSet` implements the register: it answers as the register does, for the caller who still
  -- owns the match or does not, and the keys hold the register's next state.
  pub fenced_state_set-Agrees :
      {r : Register} {s : S} (lease : Str) (fence : ℕ) (blob : Str) (ttl expected next : ℕ)
      → 1 ≤ ttl
      → Agrees r s
      → let owns = still_owns redis (owner_key id) (fence_key id) lease fence s in
        let done =
          fenced_state_set redis
            (owner_key id)
            (fence_key id)
            (state_key id)
            (revision_key id)
            lease
            fence
            blob
            ttl
            expected
            next
            s in
        (done.0 ≡ (commit owns expected next blob r).0)
        × Agrees (commit owns expected next blob r).1 done.1
  unfolding fenced_state_set
  fenced_state_set-Agrees {r} {s} lease fence blob ttl expected next h a =
      rw (revision_matches-Agrees expected a) (
        decide (still_owns redis (owner_key id) (fence_key id) lease fence s)
          (nat_beq expected r.revision) (nat_beq next (expected + 1)))
    where
      decide :
          (o m n : Bool)
          → let done : Written × S =
              if not o
              then (retry, s)
              else if not m
              then (retry, s)
              else if not n
              then (retry, s)
              else (
                applied,
                redis.set_ex
                    (redis.set_ex s (state_key id) blob ttl)
                    (revision_key id)
                    (decimal next)
                    ttl,
              ) in
            let asked : Written × Register =
              if o && m && n
              then (applied, record { revision = next; blob = some blob })
              else (retry, r) in
            (done.0 ≡ asked.0) × Agrees asked.1 done.1
      decide false m n = (refl, a)
      decide true false n = (refl, a)
      decide true true false = (refl, a)
      decide true true true = (refl, written s blob ttl next h)

  -- `fencedStateDelete` empties the register for the owner, and does nothing for anyone else.
  pub fenced_state_delete-Agrees :
      {r : Register} {s : S} (lease : Str) (fence : ℕ)
      → Agrees r s
      → let owns = still_owns redis (owner_key id) (fence_key id) lease fence s in
        let done =
          fenced_state_delete redis
            (owner_key id)
            (fence_key id)
            (state_key id)
            (revision_key id)
            lease
            fence
            s in
        (done.0 ≡ (erase owns r).0) × Agrees (erase owns r).1 done.1
  unfolding fenced_state_delete
  fenced_state_delete-Agrees {r} {s} lease fence a =
      decide (still_owns redis (owner_key id) (fence_key id) lease fence s)
    where
      emptied :
          Agrees
            (record { revision = 0; blob = none })
            (redis.del (redis.del s (state_key id)) (revision_key id))
      emptied = record {
        revision = inl (laws.del-get _ (revision_key id), refl);
        blob =
            (laws.del_other _ (revision_key id) (state_key id) refl).0
            ∙ laws.del-get s (state_key id);
      }

      decide :
          (o : Bool)
          → let done : Bool × S =
              if not o
              then (false, s)
              else (true, redis.del (redis.del s (state_key id)) (revision_key id)) in
            let asked : Bool × Register =
              if o then (true, record { revision = 0; blob = none }) else (false, r) in
            (done.0 ≡ asked.0) × Agrees asked.1 done.1
      decide false = (refl, a)
      decide true = (refl, emptied)
