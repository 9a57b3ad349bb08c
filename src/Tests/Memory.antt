-- ===== src/Tests/Memory.antt =====
-- A Redis server in memory, which meets the documented behaviour of the commands.
use the_arena_of.Prelude.{
  ℕ, suc, ◌≤◌, ◌≡◌, refl, Bool, true, false, Option, none, some, ltb, ◌==◌, if◌then◌else◌, list_eq,
  nat_eq, ==_refl, ap, ◌∙◌, lt→ltb, not_lt→ltb,
}
use the_arena_of.Prelude.Dict.{is_some}
use the_arena_of.Text.{Str, lit, decimal}
use the_arena_of.Text.Decimals.{number, number-decimal, is_canonical, all_digits}
use the_arena_of.Lease.Redis.{Redis, SameKey, IsRedis}
use the_arena_of.Lease.Scripts.{Numerals, IsNumerals}

-- Strings with a flag that tells whether they expire.
pub record Memory : Type 0 where
  pub strings : Str → Option (Str × Bool)
  pub sets : Str → Str → Bool

abbrev pub put : Memory → Str → Option (Str × Bool) → Memory
put m k v = record { strings = λ j. if k == j then v else m.strings j; sets = m.sets }

abbrev enrol : Memory → Str → Str → Bool → Memory
enrol m k a b = record {
  strings = m.strings;
  sets = λ j c. if k == j then (if a == c then b else m.sets j c) else m.sets j c;
}

abbrev text_of : Option (Str × Bool) → Option Str
text_of none = none
text_of (some v) = some v.0

abbrev flag_of : Option (Str × Bool) → Bool
flag_of none = false
flag_of (some v) = v.1

abbrev next_of : Option Str → ℕ
next_of none = 1
next_of (some v) = suc (number v)

abbrev pub read : Memory → Str → Option Str
read m k = text_of (m.strings k)

abbrev write : Memory → Str → Str → ℕ → Memory
write m k v ttl = put m k (some (v, true))

abbrev pub memory : Redis Memory
memory = record {
  get = read;
  exists = λ m k. is_some (read m k);
  expires = λ m k. flag_of (m.strings k);
  member = λ m k a. m.sets k a;
  set_ex = write;
  set_nx = λ m k v ttl. if is_some (read m k) then (false, m) else (true, write m k v ttl);
  del = λ m k. put m k none;
  incr = λ m k.
      (next_of (read m k), put m k (some (decimal (next_of (read m k)), flag_of (m.strings k))));
  pexpire = λ m k ms. (
    is_some (read m k),
    put m k (elim (m.strings k) [ none ↦ none | some v ↦ some (v.0, true) ]),
  );
  sadd = λ m k a. enrol m k a true;
  srem = λ m k a. enrol m k a false;
}

put_self : (m : Memory) (k : Str) (v : Option (Str × Bool)) → (put m k v).strings k ≡ v
put_self m k v = rw (==_refl k) refl

put_other :
    (m : Memory) (k j : Str) (v : Option (Str × Bool))
    → (k == j) ≡ false
    → (put m k v).strings j ≡ m.strings j
put_other m k j v h = rw h refl

pub put-SameKey :
    (m : Memory) (k j : Str) (v : Option (Str × Bool))
    → (k == j) ≡ false
    → SameKey memory m (put m k v) j
put-SameKey m k j v h = (ap text_of (put_other m k j v h), ap flag_of (put_other m k j v h))

enrol_self : (m : Memory) (k a : Str) (b : Bool) → (enrol m k a b).sets k a ≡ b
enrol_self m k a b = rw (==_refl k, ==_refl a) refl

enrol_other :
    (m : Memory) (k a j c : Str) (b : Bool)
    → (k == j) ≡ false
    → (enrol m k a b).sets j c ≡ m.sets j c
enrol_other m k a j c b h = rw h refl

flag_absent : (o : Option (Str × Bool)) → text_of o ≡ none → flag_of o ≡ false
flag_absent none h = refl
flag_absent (some v) h = cc

memory-incr_none :
    (m : Memory) (k : Str)
    → read m k ≡ none
    → ((memory.incr m k).0 ≡ 1)
      × (read (memory.incr m k).1 k ≡ some (decimal 1))
      × (memory.expires (memory.incr m k).1 k ≡ false)
memory-incr_none m k h = (
  ap next_of h,
  ap text_of (put_self m k _) ∙ ap (λ o. some (decimal (next_of o))) h,
  ap flag_of (put_self m k _) ∙ flag_absent (m.strings k) h,
)

memory-incr_some :
    (m : Memory) (k : Str) (n : ℕ)
    → read m k ≡ some (decimal n)
    → ((memory.incr m k).0 ≡ suc n)
      × (read (memory.incr m k).1 k ≡ some (decimal (suc n)))
      × (memory.expires (memory.incr m k).1 k ≡ memory.expires m k)
memory-incr_some m k n h = (
  counts,
  ap text_of (put_self m k _) ∙ ap (λ v. some (decimal v)) counts,
  ap flag_of (put_self m k _),
)
  where
    counts : next_of (read m k) ≡ suc n
    counts = ap next_of h ∙ ap suc (number-decimal n)

touched-text :
    (o : Option (Str × Bool))
    → text_of (elim o [ none ↦ none | some v ↦ some (v.0, true) ]) ≡ text_of o
touched-text none = refl
touched-text (some v) = refl

pub memory-IsRedis : IsRedis memory
memory-IsRedis = record {
  exists-some = λ s k v h. ap is_some h;
  set_ex-get = λ s k v ttl h. ap text_of (put_self s k (some (v, true)));
  set_ex_other = λ s k v ttl j h. put-SameKey s k j _ h;
  set_ex-member = λ s k v ttl j a h. refl;
  set_nx-some = λ s k v w ttl h. rw h refl;
  set_nx-none = λ s k v ttl h. rw h refl;
  del-get = λ s k. ap text_of (put_self s k none);
  del_other = λ s k j h. put-SameKey s k j _ h;
  del-member = λ s k j a h. refl;
  incr-none = memory-incr_none;
  incr-some = memory-incr_some;
  incr_other = λ s k j h. put-SameKey s k j _ h;
  incr-member = λ s k j a h. refl;
  pexpire-get = λ s k ms h. ap text_of (put_self s k _) ∙ touched-text (s.strings k);
  pexpire_other = λ s k ms j h. put-SameKey s k j _ h;
  sadd_same = λ s k a j. (refl, refl);
  sadd-member = λ s k a. enrol_self s k a true;
  sadd_other = λ s k a j b h. enrol_other s k a j b true h;
  srem_same = λ s k a j. (refl, refl);
  srem-member = λ s k a. enrol_self s k a false;
  srem_other = λ s k a j b h. enrol_other s k a j b false h;
}

abbrev pub numerals : Numerals
numerals = record {
  tostring = λ n. if ltb n 100000000000000 then decimal n else lit "1e+14";
  to_integer = λ s. some (number s);
}

pub numerals-IsNumerals : IsNumerals numerals
unfolding is_canonical all_digits
numerals-IsNumerals = record {
  tostring-decimal = λ n h. rw (lt→ltb n 100000000000000 h) refl;
  tostring-exponent = exponent;
  to_integer-decimal = λ n h. ap some (number-decimal n);
}
  where
    exponent : (n : ℕ) → 100000000000000 ≤ n → is_canonical (numerals.tostring n) ≡ false
    exponent n h = rw (not_lt→ltb n 100000000000000 h) refl
