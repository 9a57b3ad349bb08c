-- ===== src/Timers/Guards.antt =====
-- A set that is a guard: who acquires it is in flight until released. For the guards of
-- apps/api/src/modules/match/match-timer.registry.ts.
use the_arena_of.Prelude.{
  ℕ, ◌≡◌, refl, sym, ◌∙◌, ◌≤◌, ◌+◌, Bool, true, false, not, ◌&&◌, List, [], ◌∷◌, inl, inr,
  if◌then◌else◌, Bool-cases, includes, ◌==◌, ==_refl, ==_flip, list_beq_iff, Distinct, list_eq,
  nat_eq, arith,
}
use the_arena_of.Prelude.Dict.{add, discard}
use the_arena_of.Text.{Str}

abbrev pub count : Bool → ℕ
count true = 1
count false = 0

unfoldable pub acquired : List Str → Str → List Str
acquired xs j = if includes xs j then xs else add xs j

includes-add_self : (xs : List Str) (j : Str) → includes (add xs j) j ≡ true
unfolding add
includes-add_self [] j = rw (==_refl j) refl
includes-add_self (x ∷ xs) j = elim (Bool-cases (x == j)) [
  | inl e ↦ rw e (rw e refl)
  | inr e ↦ rw e (rw e (includes-add_self xs j))
]

includes-add_ne :
    (xs : List Str) (j id : Str) → (j == id) ≡ false → includes (add xs j) id ≡ includes xs id
unfolding add
includes-add_ne [] j id h = rw h refl
includes-add_ne (x ∷ xs) j id h = elim (Bool-cases (x == j)) [
  | inl e ↦ rw e refl
  | inr e ↦ rw e (rw (includes-add_ne xs j id h) refl)
]

includes-discard_ne :
    (xs : List Str) (j id : Str) → (j == id) ≡ false → includes (discard xs j) id ≡ includes xs id
unfolding discard
includes-discard_ne [] j id h = refl
includes-discard_ne (x ∷ xs) j id h = elim (Bool-cases (x == j)) [
  | inl e ↦ rw e (rw ((list_beq_iff x j).0 e) (rw h refl))
  | inr e ↦ rw e (rw (includes-discard_ne xs j id h) refl)
]

pub excludes-discard_self :
    (xs : List Str) (j : Str) → Distinct xs → includes (discard xs j) j ≡ false
unfolding discard
excludes-discard_self [] j h = refl
excludes-discard_self (x ∷ xs) j h = elim (Bool-cases (x == j)) [
  | inl e ↦ rw e (rw (sym ((list_beq_iff x j).0 e)) h.0)
  | inr e ↦ rw e (rw e (excludes-discard_self xs j h.1))
]

pub count_le : (b : Bool) → count b ≤ 1
count_le true = omega arith
count_le false = omega arith

-- One who acquires a guard was not, and now is, in flight.
acquired_self :
    (xs : List Str) (j : Str)
    → count (not (includes xs j)) + count (includes xs j) ≤ count (includes (acquired xs j) j)
unfolding acquired
acquired_self xs j = elim (Bool-cases (includes xs j)) [
  | inl e ↦ rw (e, e) (omega arith)
  | inr e ↦ rw (e, includes-add_self xs j) (omega arith)
]

pub acquired-count :
    (xs : List Str) (j id : Str)
    → count ((j == id) && not (includes xs j)) + count (includes xs id)
      ≤ count (includes (acquired xs j) id)
unfolding acquired
acquired-count xs j id = elim (Bool-cases (j == id)) [
  | inl f ↦ rw (sym ((list_beq_iff j id).0 f)) (rw (==_refl j) (acquired_self xs j))
  | inr f ↦ elim (Bool-cases (includes xs j)) [
    | inl e ↦ rw (f, e) (omega arith)
    | inr e ↦ rw (f, e, includes-add_ne xs j id f) (omega arith)
  ]
]

pub discard-count :
    (xs : List Str) (j id : Str)
    → count (includes xs id) ≤ count (j == id) + count (includes (discard xs j) id)
discard-count xs j id = elim (Bool-cases (j == id)) [
  | inl f ↦ rw f (
      weaker (count (includes xs id)) (count (includes (discard xs j) id))
        (count_le (includes xs id)))
  | inr f ↦ rw (f, includes-discard_ne xs j id f) (omega arith)
]
  where
    weaker : (a b : ℕ) → a ≤ 1 → a ≤ 1 + b
    weaker a b h = omega arith

add-Distinct : (xs : List Str) (j : Str) → includes xs j ≡ false → Distinct xs → Distinct (add xs j)
unfolding add
add-Distinct [] j n d = (refl, tt)
add-Distinct (x ∷ xs) j n d = elim (Bool-cases (x == j)) [
  | inl e ↦ rw e d
  | inr e ↦
      rw e (includes-add_ne xs j x (==_flip x j e) ∙ d.0, add-Distinct xs j (ground (arith, n)) d.1)
]

pub acquired-Distinct : (xs : List Str) (j : Str) → Distinct xs → Distinct (acquired xs j)
unfolding acquired
acquired-Distinct xs j h = elim (Bool-cases (includes xs j)) [
  | inl e ↦ rw e h
  | inr e ↦ rw e (add-Distinct xs j e h)
]

pub discard-Distinct : (xs : List Str) (j : Str) → Distinct xs → Distinct (discard xs j)
unfolding discard
discard-Distinct [] j h = tt
discard-Distinct (x ∷ xs) j h = elim (Bool-cases (x == j)) [
  | inl e ↦ rw e h.1
  | inr e ↦ rw e (includes-discard_ne xs j x (==_flip x j e) ∙ h.0, discard-Distinct xs j h.1)
]
