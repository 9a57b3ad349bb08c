-- ===== src/Lease/Redis.antt =====
-- The Redis server as the lease scripts use it: the commands that they call, with what the server
-- documents of each. The server is not part of the repository; every definition takes it as a parameter.
use the_arena_of.Prelude.{
  ℕ, suc, ◌≤◌, ◌≡◌, Bool, true, false, Option, none, some, ◌==◌, list_eq, nat_eq,
}
use the_arena_of.Text.{Str, decimal}

-- `get` sees the keys that have not expired; a written string has a time to live or has none.
pub record Redis {ℓ} (S : Type ℓ) : Type ℓ where
  pub get : S → Str → Option Str
  pub exists : S → Str → Bool
  pub expires : S → Str → Bool
  pub member : S → Str → Str → Bool
  -- `SET key value EX ttl`, `SET key value EX ttl NX`, `DEL`, `INCR`, `PEXPIRE`.
  pub set_ex : S → Str → Str → ℕ → S
  pub set_nx : S → Str → Str → ℕ → Bool × S
  pub del : S → Str → S
  pub incr : S → Str → ℕ × S
  pub pexpire : S → Str → ℕ → Bool × S
  pub sadd : S → Str → Str → S
  pub srem : S → Str → Str → S

module _ {ℓ} {S : Type ℓ} (redis : Redis S) where
  -- A string key reads the same, and lives as long.
  abbrev pub SameKey : S → S → Str → Type 0
  SameKey s t k = (redis.get t k ≡ redis.get s k) × (redis.expires t k ≡ redis.expires s k)

  -- The documented behaviour of the commands. A write leaves the other keys alone and reads back;
  -- `INCR` counts from zero, keeps the time to live of its key, and gives a new key none.
  pub record IsRedis : Type ℓ where
    pub exists-some : (s : S) (k v : Str) → redis.get s k ≡ some v → redis.exists s k ≡ true
    pub set_ex-get :
        (s : S) (k v : Str) (ttl : ℕ) → 1 ≤ ttl → redis.get (redis.set_ex s k v ttl) k ≡ some v
    pub set_ex_other :
        (s : S) (k v : Str) (ttl : ℕ) (j : Str)
        → (k == j) ≡ false
        → SameKey s (redis.set_ex s k v ttl) j
    pub set_ex-member :
        (s : S) (k v : Str) (ttl : ℕ) (j a : Str)
        → (k == j) ≡ false
        → redis.member (redis.set_ex s k v ttl) j a ≡ redis.member s j a
    pub set_nx-some :
        (s : S) (k v w : Str) (ttl : ℕ)
        → redis.get s k ≡ some w
        → redis.set_nx s k v ttl ≡ (false, s)
    pub set_nx-none :
        (s : S) (k v : Str) (ttl : ℕ)
        → redis.get s k ≡ none
        → redis.set_nx s k v ttl ≡ (true, redis.set_ex s k v ttl)
    pub del-get : (s : S) (k : Str) → redis.get (redis.del s k) k ≡ none
    pub del_other : (s : S) (k j : Str) → (k == j) ≡ false → SameKey s (redis.del s k) j
    pub del-member :
        (s : S) (k j a : Str)
        → (k == j) ≡ false
        → redis.member (redis.del s k) j a ≡ redis.member s j a
    pub incr-none :
        (s : S) (k : Str)
        → redis.get s k ≡ none
        → ((redis.incr s k).0 ≡ 1)
          × (redis.get (redis.incr s k).1 k ≡ some (decimal 1))
          × (redis.expires (redis.incr s k).1 k ≡ false)
    pub incr-some :
        (s : S) (k : Str) (n : ℕ)
        → redis.get s k ≡ some (decimal n)
        → ((redis.incr s k).0 ≡ suc n)
          × (redis.get (redis.incr s k).1 k ≡ some (decimal (suc n)))
          × (redis.expires (redis.incr s k).1 k ≡ redis.expires s k)
    pub incr_other : (s : S) (k j : Str) → (k == j) ≡ false → SameKey s (redis.incr s k).1 j
    pub incr-member :
        (s : S) (k j a : Str)
        → (k == j) ≡ false
        → redis.member (redis.incr s k).1 j a ≡ redis.member s j a
    pub pexpire-get :
        (s : S) (k : Str) (ms : ℕ) → 1 ≤ ms → redis.get (redis.pexpire s k ms).1 k ≡ redis.get s k
    pub pexpire_other :
        (s : S) (k : Str) (ms : ℕ) (j : Str)
        → (k == j) ≡ false
        → SameKey s (redis.pexpire s k ms).1 j
    pub sadd_same : (s : S) (k a j : Str) → SameKey s (redis.sadd s k a) j
    pub sadd-member : (s : S) (k a : Str) → redis.member (redis.sadd s k a) k a ≡ true
    pub sadd_other :
        (s : S) (k a j b : Str)
        → (k == j) ≡ false
        → redis.member (redis.sadd s k a) j b ≡ redis.member s j b
    pub srem_same : (s : S) (k a j : Str) → SameKey s (redis.srem s k a) j
    pub srem-member : (s : S) (k a : Str) → redis.member (redis.srem s k a) k a ≡ false
    pub srem_other :
        (s : S) (k a j b : Str)
        → (k == j) ≡ false
        → redis.member (redis.srem s k a) j b ≡ redis.member s j b
