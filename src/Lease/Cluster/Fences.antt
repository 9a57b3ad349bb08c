-- ===== src/Lease/Cluster/Fences.antt =====
-- The fence of a match under every call: it only grows, and a live lease carries the newest one.
use the_arena_of.Prelude.{
  ℕ, zero, suc, ◌≤◌, ◌≡◌, refl, ap, ◌∙◌, ◌⊎◌, inl, inr, Bool, true, false, not, ◌&&◌, ◌∷◌, ◌++◌,
  Option, none, some, arith, ◌==◌, list_eq, nat_eq, if◌then◌else◌,
}
use the_arena_of.Text.{Str, decimal}
use the_arena_of.Lease.Redis.{Redis, SameKey, IsRedis}
use the_arena_of.Lease.Tombstone.{
  TombstoneReason, finished, dead_letter, cleaned, Gate, invalid, final, passes, lua_gate,
}
use the_arena_of.Lease.Keys.{
  active_set, dead_letter_set, fence_key, owner_key, tombstone_key, state_key, requeue_keys,
}
use the_arena_of.Lease.Scripts.{
  Numerals, is_live, claim, requeue, requeue_marked, requeue_gated, list_dead_letter,
}

-- To prove of the state behind a conditional reply what holds of both branches.
pub choose {ℓ κ μ} :
    {A : Type ℓ} {S : Type κ} (P : S → Type μ) (b : Bool) (x y : A × S)
    → (b ≡ true → P x.1)
    → (b ≡ false → P y.1)
    → P (if b then x else y).1
choose P true x y p q = p refl
choose P false x y p q = q refl

module _ {ℓ} {S : Type ℓ} (redis : Redis S) (laws : IsRedis redis) (numerals : Numerals)
    (id : Str) where
  -- The stored counter: none before the first lease.
  abbrev pub Counts : ℕ → S → Type 0
  Counts zero s = redis.get s (fence_key id) ≡ none
  Counts (suc f) s = redis.get s (fence_key id) ≡ some (decimal (suc f))

  -- The counter does not expire, and a live owner key was written with the counter's value.
  pub record Fenced (f : ℕ) (s : S) : Type 0 where
    pub persists : redis.expires s (fence_key id) ≡ false
    pub counts : Counts f s
    pub owned :
        (is_live (redis.get s (owner_key id)) ≡ false)
        ⊎ ((node : Str) × (redis.get s (owner_key id) ≡ some (node ++ (58 ∷ numerals.tostring f))))

  abbrev pub Advances : ℕ → S → Type 0
  Advances f t = (g : ℕ) × (f ≤ g) × Fenced g t

  same_trans :
      {s t u : S} {k : Str} → SameKey redis s t k → SameKey redis t u k → SameKey redis s u k
  same_trans p q = (q.0 ∙ p.0, q.1 ∙ p.1)

  pub Counts-same : (f : ℕ) {s t : S} → SameKey redis s t (fence_key id) → Counts f s → Counts f t
  Counts-same zero h c = h.0 ∙ c
  Counts-same (suc f) h c = h.0 ∙ c

  -- The owner's and the fence's keys are untouched.
  abbrev pub Untouched : S → S → Type 0
  Untouched s t = SameKey redis s t (owner_key id) × SameKey redis s t (fence_key id)

  pub keeps : {f : ℕ} {s t : S} → Untouched s t → Fenced f s → Fenced f t
  keeps {f} h inv = record {
    persists = h.1.1 ∙ inv.persists;
    counts = Counts-same f h.1 inv.counts;
    owned = elim inv.owned [
      | inl quiet ↦ inl (ap is_live h.0.0 ∙ quiet)
      | inr taken ↦ inr (taken.0, h.0.0 ∙ taken.1)
    ];
  }

  -- The owner's key is gone.
  pub keeps_gone :
      {f : ℕ} {s t : S}
      → redis.get t (owner_key id) ≡ none
      → SameKey redis s t (fence_key id)
      → Fenced f s
      → Fenced f t
  keeps_gone {f} gone h inv = record {
    persists = h.1 ∙ inv.persists;
    counts = Counts-same f h inv.counts;
    owned = inl (ap is_live gone);
  }

  pub advance :
      (f : ℕ) (s : S)
      → Counts f s
      → redis.expires s (fence_key id) ≡ false
      → ((redis.incr s (fence_key id)).0 ≡ suc f)
        × Counts (suc f) (redis.incr s (fence_key id)).1
        × (redis.expires (redis.incr s (fence_key id)).1 (fence_key id) ≡ false)
  advance zero s c e = laws.incr-none s (fence_key id) c
  advance (suc f) s c e = let r = laws.incr-some s (fence_key id) (suc f) c in (r.0, r.1, r.2 ∙ e)

  -- A new owner: the counter goes up by one, and the lease is written with it.
  pub claimed :
      {f : ℕ} (node : Str) (ttl : ℕ) (s : S)
      → 1 ≤ ttl
      → Fenced f s
      → Fenced (suc f) (
          redis.set_ex
            (redis.incr s (fence_key id)).1
            (owner_key id)
            (node ++ (58 ∷ numerals.tostring (redis.incr s (fence_key id)).0))
            ttl)
  claimed {f} node ttl s h inv = record {
    persists = other.1 ∙ grown.2;
    counts = Counts-same (suc f) other grown.1;
    owned = inr (
      node,
      laws.set_ex-get after (owner_key id) lease ttl h
          ∙ ap (λ n. some (node ++ (58 ∷ numerals.tostring n))) grown.0,
    );
  }
    where
      after : S
      after = (redis.incr s (fence_key id)).1

      lease : Str
      lease = node ++ (58 ∷ numerals.tostring (redis.incr s (fence_key id)).0)

      grown :
          ((redis.incr s (fence_key id)).0 ≡ suc f)
          × Counts (suc f) after
          × (redis.expires after (fence_key id) ≡ false)
      grown = advance f s inv.counts inv.persists

      other : SameKey redis after (redis.set_ex after (owner_key id) lease ttl) (fence_key id)
      other = laws.set_ex_other after (owner_key id) lease ttl (fence_key id) refl

  pub claim-Advances :
      (f : ℕ) (node : Str) (ttl : ℕ) (s : S)
      → 1 ≤ ttl
      → Fenced f s
      → Advances f (claim redis numerals (owner_key id) (fence_key id) node ttl s).1
  claim-Advances f node ttl s h inv =
      choose (Advances f) (is_live (redis.get s (owner_key id))) _ _ (λ _. (f, omega arith, inv))
        (λ _. (suc f, omega arith, claimed node ttl s h inv))

  pub stays : {f : ℕ} {t : S} → Fenced f t → Advances f t
  stays {f} inv = (f, omega arith, inv)

  -- The writes of the other keys of the match.
  pub set_ex-Untouched :
      (s : S) (k v : Str) (ttl : ℕ)
      → (k == owner_key id) ≡ false
      → (k == fence_key id) ≡ false
      → Untouched s (redis.set_ex s k v ttl)
  set_ex-Untouched s k v ttl p q =
      (laws.set_ex_other s k v ttl (owner_key id) p, laws.set_ex_other s k v ttl (fence_key id) q)

  pub del-Untouched :
      (s : S) (k : Str)
      → (k == owner_key id) ≡ false
      → (k == fence_key id) ≡ false
      → Untouched s (redis.del s k)
  del-Untouched s k p q = (laws.del_other s k (owner_key id) p, laws.del_other s k (fence_key id) q)

  pub srem-Untouched : (s : S) (k a : Str) → Untouched s (redis.srem s k a)
  srem-Untouched s k a = (laws.srem_same s k a (owner_key id), laws.srem_same s k a (fence_key id))

  sadd-Untouched : (s : S) (k a : Str) → Untouched s (redis.sadd s k a)
  sadd-Untouched s k a = (laws.sadd_same s k a (owner_key id), laws.sadd_same s k a (fence_key id))

  -- The owner's key is deleted.
  pub released : {f : ℕ} {s : S} → Fenced f s → Fenced f (redis.del s (owner_key id))
  released {s} inv =
      keeps_gone (laws.del-get s (owner_key id))
        (laws.del_other s (owner_key id) (fence_key id) refl) inv

  requeue-Advances :
      {f : ℕ} {s : S} (live : Bool)
      → Fenced f s
      → Advances f (requeue redis (requeue_keys id) id live s)
  requeue-Advances {f} {s} false inv = stays (
      keeps (srem-Untouched _ dead_letter_set id) (
        keeps (sadd-Untouched _ active_set id)
          (keeps (del-Untouched _ (tombstone_key id) refl refl) inv)))
  requeue-Advances {f} {s} true inv = (
    suc f,
    omega arith,
    keeps (srem-Untouched _ dead_letter_set id) (
        keeps (sadd-Untouched _ active_set id)
          (keeps (del-Untouched _ (tombstone_key id) refl refl) fenced)),
  )
    where
      quiet : Fenced f (redis.del s (owner_key id))
      quiet = released inv

      fenced : Fenced (suc f) (redis.incr (redis.del s (owner_key id)) (fence_key id)).1
      fenced =
          let grown = advance f (redis.del s (owner_key id)) quiet.counts quiet.persists in
          let other =
            laws.incr_other (redis.del s (owner_key id)) (fence_key id) (owner_key id) refl in
          record {
            persists = grown.2;
            counts = grown.1;
            owned = inl (ap is_live (other.0 ∙ laws.del-get s (owner_key id)));
          }

  requeue_marked-Advances :
      {f : ℕ} {s : S} (force : Bool) (gate : Gate)
      → Fenced f s
      → Advances f (requeue_marked redis (requeue_keys id) id force s gate).1
  requeue_marked-Advances force invalid inv = stays inv
  requeue_marked-Advances force final inv = stays inv
  requeue_marked-Advances {f} {s} force passes inv =
      choose (Advances f) (not (redis.exists s (state_key id))) _ _ (λ _. stays inv)
        (λ _.
          choose (Advances f) (is_live (redis.get s (owner_key id)) && not force) _ _
            (λ _. stays inv) (λ _. requeue-Advances (is_live (redis.get s (owner_key id))) inv))

  pub requeue_gated-Advances :
      {f : ℕ} {s : S} (force : Bool) (marker : Option Str)
      → Fenced f s
      → Advances f (requeue_gated redis (requeue_keys id) id force s marker).1
  requeue_gated-Advances force none inv = stays inv
  requeue_gated-Advances force (some marker) inv =
      requeue_marked-Advances force (lua_gate marker) inv

  pub list_dead_letter-keeps :
      {f : ℕ} {s : S} (reason : TombstoneReason)
      → Fenced f s
      → Fenced f (list_dead_letter redis reason dead_letter_set id s)
  list_dead_letter-keeps finished inv = inv
  list_dead_letter-keeps dead_letter inv = keeps (sadd-Untouched _ dead_letter_set id) inv
  list_dead_letter-keeps cleaned inv = inv
