-- ===== src/Match/Codec/Maps.antt =====
-- A JavaScript `Map` written as its entries and read back.

use the_arena_of.Prelude.{
  ◌≡◌, refl, sym, ap, ◌∙◌, false, List, [], ◌∷◌, ◌++◌, ◌==◌, list_eq, nat_eq, includes, Distinct,
  arith, ==_refl, ==_flip, Bool-cases, inl, inr, subst, true, All,
}
use mathlib.Core.List.{append_assoc, append-nil}
use the_arena_of.Prelude.Dict.{Dict, set, modify}
use the_arena_of.Text.{Str}
use the_arena_of.Match.State.{status_eq}
use the_arena_of.Match.Codec.Decode.{map_of}

abbrev pub keys_of : {V : Type 0} → List (Str × V) → List Str
keys_of [] = []
keys_of (e ∷ es) = e.0 ∷ keys_of es

-- The keys of a Map are distinct.
abbrev pub Keyed : {V : Type 0} → List (Str × V) → Type 0
Keyed es = Distinct (keys_of es)

set-fresh :
    {V : Type 0} (m : Dict Str V) (k : Str) (v : V)
    → includes (keys_of m) k ≡ false
    → set m k v ≡ m ++ ((k, v) ∷ [])
unfolding set
set-fresh [] k v h = refl
set-fresh ((j, w) ∷ m) k v h = rw other (ap ((j, w) ∷◌) (set-fresh m k v (ground (arith, h))))
  where
    other : (j == k) ≡ false
    other = ground (arith, h)

includes-append :
    {V : Type 0} (m : Dict Str V) (k j : Str) (v : V)
    → includes (keys_of m) j ≡ false
    → (k == j) ≡ false
    → includes (keys_of (m ++ ((k, v) ∷ []))) j ≡ false
includes-append [] k j v h d = rw d refl
includes-append ((i, w) ∷ m) k j v h d = ground (arith, h, includes-append m k j v)

-- No later key is in the map already.
Fresh : {V : Type 0} → Dict Str V → List (Str × V) → Type 0
Fresh m [] = Unit
Fresh m (e ∷ es) = (includes (keys_of m) e.0 ≡ false) × Fresh m es

Fresh-append :
    {V : Type 0} (m : Dict Str V) (k : Str) (v : V) (es : List (Str × V))
    → Fresh m es
    → includes (keys_of es) k ≡ false
    → Fresh (m ++ ((k, v) ∷ [])) es
unfolding Fresh
Fresh-append m k v [] f h = tt
Fresh-append m k v (e ∷ es) f h = (
  includes-append m k e.0 v f.0 (==_flip e.0 k (ground (arith, h))),
  Fresh-append m k v es f.1 (ground (arith, h)),
)

map_of-Fresh :
    {V : Type 0} (m : Dict Str V) (es : List (Str × V))
    → Fresh m es
    → Keyed es
    → map_of m es ≡ m ++ es
unfolding Fresh
map_of-Fresh m [] f h = sym (append-nil m)
map_of-Fresh m ((k, v) ∷ es) f h =
    ap (λ n. map_of n es) (set-fresh m k v f.0)
    ∙ map_of-Fresh (m ++ ((k, v) ∷ [])) es (Fresh-append m k v es f.1 h.0) h.1
    ∙ append_assoc m ((k, v) ∷ []) es

Fresh-nil : {V : Type 0} (es : List (Str × V)) → Fresh [] es
unfolding Fresh
Fresh-nil [] = tt
Fresh-nil (e ∷ es) = (refl, Fresh-nil es)

-- Entries with distinct keys make up the map that they came from.
pub map_of-Keyed : {V : Type 0} (es : List (Str × V)) → Keyed es → map_of [] es ≡ es
map_of-Keyed es h = map_of-Fresh [] es (Fresh-nil es) h

-- A write through a reference, and a `set`, keep the keys distinct.
keys_of-modify :
    {V : Type 0} (m : Dict Str V) (k : Str) (f : V → V) → keys_of (modify m k f) ≡ keys_of m
unfolding modify
keys_of-modify [] k f = refl
keys_of-modify ((j, w) ∷ m) k f = elim (Bool-cases (j == k)) [
  | inl e ↦ rw e refl
  | inr e ↦ rw e (ap (j ∷◌) (keys_of-modify m k f))
]

pub modify-Keyed :
    {V : Type 0} (m : Dict Str V) (k : Str) (f : V → V) → Keyed m → Keyed (modify m k f)
modify-Keyed m k f h = subst Distinct (sym (keys_of-modify m k f)) h

excludes-set :
    {V : Type 0} (m : Dict Str V) (k j : Str) (v : V)
    → includes (keys_of m) j ≡ false
    → (k == j) ≡ false
    → includes (keys_of (set m k v)) j ≡ false
unfolding set
excludes-set [] k j v h d = rw d refl
excludes-set ((i, w) ∷ m) k j v h d = elim (Bool-cases (i == k)) [
  | inl e ↦ rw e h
  | inr e ↦ rw e (ground (arith, h, excludes-set m k j v))
]

pub set-Keyed : {V : Type 0} (m : Dict Str V) (k : Str) (v : V) → Keyed m → Keyed (set m k v)
unfolding set
set-Keyed [] k v h = (refl, tt)
set-Keyed ((i, w) ∷ m) k v h = elim (Bool-cases (i == k)) [
  | inl e ↦ rw e h
  | inr e ↦ rw e (excludes-set m k i v h.0 (==_flip i k e), set-Keyed m k v h.1)
]

-- The entries of a map after a `set` are the new one and earlier ones.
pub set-All :
    {V : Type 0} (P : Str × V → Type 0) (m : Dict Str V) (k : Str) (v : V)
    → All P m
    → ((j : Str) → (j == k) ≡ true → P (j, v))
    → All P (set m k v)
unfolding set
set-All P [] k v h p = (p k (==_refl k), tt)
set-All P ((i, w) ∷ m) k v h p = elim (Bool-cases (i == k)) [
  | inl e ↦ rw e (p i e, h.1)
  | inr e ↦ rw e (h.0, set-All P m k v h.1 p)
]
