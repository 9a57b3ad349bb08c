-- ===== src/Prelude/Equality.antt =====
-- Boolean equality as an interface: the source's `===` on keys.
use Prim.Native.Nat.{ℕ}
use mathlib.Core.Path.{◌≡◌, refl, sym, ap, ◌∙◌}
use mathlib.Core.Logic.{◌↔◌, inl, inr}
use mathlib.Core.Bool.{Bool, true, false, true≢false, ◌&&◌, ◌||◌}
use mathlib.Core.List.{List, [], ◌∷◌}
use native.Mathlib.Omega.{arith}
use the_arena_of.Prelude.Lists.{All, keep_if}
use the_arena_of.Prelude.Tests.{nat_beq, nat_beq_iff, Bool-cases}

infix 50 ◌==◌
-- Keys that can be compared.
pub record Eq {ℓ} (K : Type ℓ) : Type ℓ where
  pub beq : (x y : K) → Bool
  pub beq_iff : (x y : K) → (beq x y ≡ true) ↔ (x ≡ y)

instance abbrev pub nat_eq : Eq ℕ
nat_eq = record { beq_iff = nat_beq_iff; beq = nat_beq }

abbrev pub ◌==◌ {ℓ} : {K : Type ℓ} ⦃keys : Eq K⦄ (x y : K) → Bool
◌==◌ ⦃keys⦄ = keys.beq

module _ {ℓ} {A : Type ℓ} ⦃e : Eq A⦄ where
  pub ==_refl : (a : A) → (a == a) ≡ true
  ==_refl a = (e.beq_iff a a).1 refl

  pub ==_flip : (x y : A) → (x == y) ≡ false → (y == x) ≡ false
  ==_flip x y h = elim (Bool-cases (y == x)) [
    | inl p ↦ absurd (true≢false (sym (==_refl y) ∙ (ap (λ z. z == y) ((e.beq_iff y x).0 p) ∙ h)))
    | inr d ↦ d
  ]

  -- `xs.includes(a)`.
  abbrev pub includes : List A → A → Bool
  includes [] a = false
  includes (x ∷ xs) a = x == a || includes xs a

  includes-later :
      (xs ys : List A)
      → All (λ x. includes ys x ≡ true) xs
      → (a : A) → All (λ x. includes (a ∷ ys) x ≡ true) xs
  includes-later [] ys h a = tt
  includes-later (x ∷ xs) ys h a = (ground arith, includes-later xs ys h.1 a)

  -- A list includes its entries.
  pub All-includes : (xs : List A) → All (λ x. includes xs x ≡ true) xs
  All-includes [] = tt
  All-includes (x ∷ xs) = (rw (==_refl x), includes-later xs xs (All-includes xs) x)

  -- Lists are compared entry by entry.
  abbrev pub list_beq : List A → List A → Bool
  list_beq [] [] = true
  list_beq [] (y ∷ ys) = false
  list_beq (x ∷ xs) [] = false
  list_beq (x ∷ xs) (y ∷ ys) = x == y && list_beq xs ys

  pub list_beq_sound : (xs ys : List A) → list_beq xs ys ≡ true → xs ≡ ys
  list_beq_sound [] [] h = refl
  list_beq_sound [] (y ∷ ys) h = cc
  list_beq_sound (x ∷ xs) [] h = cc
  list_beq_sound (x ∷ xs) (y ∷ ys) h = ground (arith, (e.beq_iff x y).0, list_beq_sound xs ys)

  pub list_beq_refl : (xs : List A) → list_beq xs xs ≡ true
  list_beq_refl [] = refl
  list_beq_refl (x ∷ xs) = rw (==_refl x) (list_beq_refl xs)

  pub list_beq_iff : (xs ys : List A) → (list_beq xs ys ≡ true) ↔ (xs ≡ ys)
  list_beq_iff xs ys = (list_beq_sound xs ys, λ p. rw p (list_beq_refl ys))

  instance abbrev pub list_eq : Eq (List A)
  list_eq = record { beq = list_beq; beq_iff = list_beq_iff }

module _ {ℓ} {A : Type ℓ} ⦃e : Eq A⦄ where
  -- No entry stands twice in the list.
  abbrev pub Distinct : List A → Type 0
  Distinct [] = Unit
  Distinct (x ∷ xs) = (includes xs x ≡ false) × Distinct xs

  -- An entry that fails is not in the filtered list.
  excludes-keep_if :
      (p : A → Bool) (xs : List A) (x : A) → p x ≡ false → includes (keep_if p xs) x ≡ false
  excludes-keep_if p [] x h = refl
  excludes-keep_if p (y ∷ ys) x h = elim (Bool-cases (p y)) [
    | inl q ↦ rw q (ground (arith, (e.beq_iff y x).0, excludes-keep_if p ys x h))
    | inr q ↦ rw q (excludes-keep_if p ys x h)
  ]

  -- An entry of the list is in the filtered list where it passes.
  pub includes-keep_if :
      (p : A → Bool) (xs : List A) (x : A) → includes xs x ≡ true → includes (keep_if p xs) x ≡ p x
  includes-keep_if p [] x h = cc
  includes-keep_if p (y ∷ ys) x h = elim (Bool-cases (p x)) [
    | inl q ↦ rw q (elim (Bool-cases (y == x)) [
      | inl r ↦ let y≡x : y ≡ x = (e.beq_iff y x).0 r in rw (ap p y≡x ∙ q, r)
      | inr r ↦ elim (Bool-cases (p y)) [
        | inl s ↦ rw (s, r) (includes-keep_if p ys x (ground (arith, h, r)) ∙ q)
        | inr s ↦ rw s (includes-keep_if p ys x (ground (arith, h, r)) ∙ q)
      ]
    ])
    | inr q ↦ rw q (excludes-keep_if p (y ∷ ys) x q)
  ]

pub keep_if-cong {ℓ} :
    {A : Type ℓ} (p q : A → Bool) (xs : List A)
    → All (λ x. p x ≡ q x) xs
    → keep_if p xs ≡ keep_if q xs
keep_if-cong p q [] h = refl
keep_if-cong p q (x ∷ xs) h = rw (h.0, keep_if-cong p q xs h.1)
