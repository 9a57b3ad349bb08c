-- ===== src/Prelude/Dict.antt =====
-- JavaScript's `Map` and `Set`: entries in the order of their first insertion. A `set` on a key that
-- is there keeps its place.
use the_arena_of.Prelude.Equality.{Eq, ◌==◌, ==_refl}
use the_arena_of.Prelude.Tests.{if◌then◌else◌, Bool-cases}
use mathlib.Core.Path.{◌≡◌, refl, ap}
use mathlib.Core.Logic.{inl, inr}
use mathlib.Core.Bool.{Bool, true, false}
use mathlib.Core.List.{List, [], ◌∷◌, map}
use mathlib.Core.Option.{Option, none, some}
use native.Mathlib.Omega.{arith}

abbrev pub Dict {ℓ κ} : Type ℓ → Type κ → Type (ℓ ⊔ κ)
Dict K V = List (K × V)

abbrev pub is_some {ℓ} : {A : Type ℓ} → Option A → Bool
is_some none = false
is_some (some a) = true

-- `o ?? d`.
abbrev pub or_else {ℓ} : {A : Type ℓ} → Option A → A → A
or_else none d = d
or_else (some a) d = a

module _ {ℓ κ} {K : Type ℓ} {V : Type κ} ⦃e : Eq K⦄ where
  unfoldable pub get : Dict K V → K → Option V
  get [] k = none
  get ((j, v) ∷ m) k = if j == k then some v else get m k

  unfoldable pub set : Dict K V → K → V → Dict K V
  set [] k v = (k, v) ∷ []
  set ((j, w) ∷ m) k v = if j == k then (j, v) ∷ m else (j, w) ∷ set m k v

  unfoldable pub delete : Dict K V → K → Dict K V
  delete [] k = []
  delete ((j, w) ∷ m) k = if j == k then m else (j, w) ∷ delete m k

  -- A write through a reference: `const v = m.get(k); if (v) v.field = …`.
  unfoldable pub modify : Dict K V → K → (V → V) → Dict K V
  modify [] k f = []
  modify ((j, w) ∷ m) k f = if j == k then (j, f w) ∷ m else (j, w) ∷ modify m k f

  abbrev pub has : Dict K V → K → Bool
  has m k = is_some (get m k)

  pub get-set_self : (m : Dict K V) (k : K) (v : V) → get (set m k v) k ≡ some v
  unfolding get set
  get-set_self [] k v = rw (==_refl k)
  get-set_self ((j, w) ∷ m) k v = elim (Bool-cases (j == k)) [
    | inl h ↦ rw (h, h)
    | inr h ↦ rw (h, h) (get-set_self m k v)
  ]

  pub get-set_ne : (m : Dict K V) (k j : K) (v : V) → (k == j) ≡ false → get (set m k v) j ≡ get m j
  unfolding get set
  get-set_ne [] k j v h = rw h
  get-set_ne ((i, w) ∷ m) k j v h = elim (Bool-cases (i == k)) [
    | inl p ↦ rw p (rw ((e.beq_iff i k).0 p) (rw h))
    | inr p ↦ rw p (ap (λ r. if i == j then some w else r) (get-set_ne m k j v h))
  ]

  pub get-modify_self :
      (m : Dict K V) (k : K) (f : V → V) {v : V}
      → get m k ≡ some v
      → get (modify m k f) k ≡ some (f v)
  unfolding get modify
  get-modify_self [] k f h = cc
  get-modify_self ((j, w) ∷ m) k f h = elim (Bool-cases (j == k)) [
    | inl p ↦ rw (p, p) (ground (arith, p))
    | inr p ↦ rw (p, p) (get-modify_self m k f (ground (arith, p)))
  ]

  pub get-modify_ne :
      (m : Dict K V) (k j : K) (f : V → V) → (k == j) ≡ false → get (modify m k f) j ≡ get m j
  unfolding get modify
  get-modify_ne [] k j f h = refl
  get-modify_ne ((i, w) ∷ m) k j f h = elim (Bool-cases (i == k)) [
    | inl p ↦ rw p (rw ((e.beq_iff i k).0 p) (rw h))
    | inr p ↦ rw p (ap (λ r. if i == j then some w else r) (get-modify_ne m k j f h))
  ]

  -- A write through a reference keeps the keys, and their order.
  pub keys-modify :
      (m : Dict K V) (k : K) (f : V → V)
      → map (λ (p : K × V). p.0) (modify m k f) ≡ map (λ p. p.0) m
  unfolding modify
  keys-modify [] k f = refl
  keys-modify ((i, w) ∷ m) k f = elim (Bool-cases (i == k)) [
    | inl p ↦ rw p
    | inr p ↦ rw p (ap (i ∷◌) (keys-modify m k f))
  ]

-- A `Set` in the order of insertion: `add` and `delete`.
module _ {ℓ} {A : Type ℓ} ⦃e : Eq A⦄ where
  unfoldable pub add : List A → A → List A
  add [] a = a ∷ []
  add (x ∷ xs) a = if x == a then x ∷ xs else x ∷ add xs a

  unfoldable pub discard : List A → A → List A
  discard [] a = []
  discard (x ∷ xs) a = if x == a then xs else x ∷ discard xs a
