-- ===== src/Prelude/Sort.antt =====
-- `Array.prototype.sort`: a stable sort by a comparison. `lt a b` stands for `compare(a, b) < 0`, and
-- a comparison that tests several keys in turn is built by `by_key`, `by_key_desc` and `by_test`.
use Prim.Native.Nat.{ℕ, zero, suc, compare, Ordering}
use mathlib.Core.Path.{◌≡◌, refl, sym, subst}
use mathlib.Core.Bool.{Bool, true, false}
use mathlib.Core.Logic.{inl, inr}
use mathlib.Core.List.{List, [], ◌∷◌, Perm}
use mathlib.Core.List.Perm
use native.Mathlib.Omega.{arith}
use the_arena_of.Prelude.Tests.{if◌then◌else◌, Bool-cases}
use the_arena_of.Prelude.Lists.{All, All-map, length, take, drop}

-- What a comparison has to satisfy: its negation, flipped, is a total preorder.
pub record IsOrder {ℓ} {A : Type ℓ} (lt : A → A → Bool) : Type ℓ where
  pub asym : (a b : A) → lt a b ≡ true → lt b a ≡ false
  pub trans : (a b c : A) → lt b a ≡ false → lt c b ≡ false → lt c a ≡ false

module _ {ℓ} {A : Type ℓ} where
  -- `if (f(a) !== f(b)) return f(a) - f(b); rest`.
  abbrev pub by_key : (A → ℕ) → (A → A → Bool) → A → A → Bool
  by_key f rest a b = elim (compare (f a) (f b)) [
    | Ordering.lt ↦ true
    | Ordering.gt ↦ false
    | Ordering.eq ↦ rest a b
  ]

  -- `if (f(a) !== f(b)) return f(b) - f(a); rest`.
  abbrev pub by_key_desc : (A → ℕ) → (A → A → Bool) → A → A → Bool
  by_key_desc f rest a b = elim (compare (f a) (f b)) [
    | Ordering.lt ↦ false
    | Ordering.gt ↦ true
    | Ordering.eq ↦ rest a b
  ]

  -- The end of a comparison that answers 0.
  abbrev pub same : A → A → Bool
  same a b = false

  pub same-IsOrder : IsOrder same
  same-IsOrder = record { asym = λ a b h. refl; trans = λ a b c p q. refl }

  pub by_key-IsOrder : (f : A → ℕ) (rest : A → A → Bool) → IsOrder rest → IsOrder (by_key f rest)
  by_key-IsOrder f rest o = record {
    asym = λ a b. ground (arith, o.asym a b);
    trans = λ a b c. ground (arith, o.trans a b c);
  }

  pub by_key_desc-IsOrder :
      (f : A → ℕ) (rest : A → A → Bool) → IsOrder rest → IsOrder (by_key_desc f rest)
  by_key_desc-IsOrder f rest o = record {
    asym = λ a b. ground (arith, o.asym a b);
    trans = λ a b c. ground (arith, o.trans a b c);
  }

module _ {ℓ} {A : Type ℓ} (lt : A → A → Bool) where
  unfoldable pub insert : A → List A → List A
  insert x [] = x ∷ []
  insert x (y ∷ ys) = if lt y x then y ∷ insert x ys else x ∷ y ∷ ys

  unfoldable pub sort : List A → List A
  unfolding insert
  sort [] = []
  sort (x ∷ xs) = insert x (sort xs)

  -- No entry stands behind one that it has to precede.
  abbrev pub IsSorted : List A → Type 0
  IsSorted [] = Unit
  IsSorted (x ∷ xs) = All (λ y. lt y x ≡ false) xs × IsSorted xs

  insert-perm : (x : A) (xs : List A) → Perm (insert x xs) (x ∷ xs)
  unfolding insert
  insert-perm x [] = Perm.refl _
  insert-perm x (y ∷ ys) = elim (Bool-cases (lt y x)) [
    | inl e ↦ rw e (Perm.trans (Perm.cons y (insert-perm x ys)) (Perm.swap x y ys))
    | inr e ↦ rw e (Perm.refl _)
  ]

  pub sort-perm : (xs : List A) → Perm (sort xs) xs
  unfolding sort
  sort-perm [] = Perm.refl []
  sort-perm (x ∷ xs) = Perm.trans (insert-perm x (sort xs)) (Perm.cons x (sort-perm xs))

  pub All-insert {κ} : (P : A → Type κ) (x : A) (xs : List A) → P x → All P xs → All P (insert x xs)
  unfolding insert
  All-insert P x [] p h = (p, tt)
  All-insert P x (y ∷ ys) p h = elim (Bool-cases (lt y x)) [
    | inl e ↦ rw e (h.0, All-insert P x ys p h.1)
    | inr e ↦ rw e (p, h)
  ]

  pub All-sort {κ} : (P : A → Type κ) (xs : List A) → All P xs → All P (sort xs)
  unfolding sort
  All-sort P [] h = tt
  All-sort P (x ∷ xs) h = All-insert P x (sort xs) h.0 (All-sort P xs h.1)

  insert-IsSorted : IsOrder lt → (x : A) (xs : List A) → IsSorted xs → IsSorted (insert x xs)
  unfolding insert
  insert-IsSorted o x [] s = (tt, tt)
  insert-IsSorted o x (y ∷ ys) s = elim (Bool-cases (lt y x)) [
    | inl e ↦
        rw e (All-insert (λ z. lt z y ≡ false) x ys (o.asym y x e) s.0, insert-IsSorted o x ys s.1)
    | inr e ↦ rw e ((e, All-map (λ z. lt z x ≡ false) (λ z q. o.trans x y z e q) ys s.0), s)
  ]

  pub sort-IsSorted : IsOrder lt → (xs : List A) → IsSorted (sort xs)
  unfolding sort
  sort-IsSorted o [] = tt
  sort-IsSorted o (x ∷ xs) = insert-IsSorted o x (sort xs) (sort-IsSorted o xs)

  pub length-insert : (x : A) (xs : List A) → length (insert x xs) ≡ suc (length xs)
  unfolding insert
  length-insert x [] = refl
  length-insert x (y ∷ ys) = ground (arith, length-insert x ys)

  pub length-sort : (xs : List A) → length (sort xs) ≡ length xs
  unfolding sort
  length-sort [] = refl
  length-sort (x ∷ xs) = omega (arith, length-insert x (sort xs), length-sort xs)

  All-insert_inv {κ} : (P : A → Type κ) (x : A) (xs : List A) → All P (insert x xs) → P x × All P xs
  unfolding insert
  All-insert_inv P x [] h = h
  All-insert_inv P x (y ∷ ys) h = elim (Bool-cases (lt y x)) [
    | inl e ↦
        let split = rw (e, insert) at h in
        let inner = All-insert_inv P x ys split.1 in (inner.0, (split.0, inner.1))
    | inr e ↦ rw (e, insert) at h
  ]

  pub All-sort_inv {κ} : (P : A → Type κ) (xs : List A) → All P (sort xs) → All P xs
  unfolding sort
  All-sort_inv P [] h = tt
  All-sort_inv P (x ∷ xs) h =
      let both = All-insert_inv P x (sort xs) h in (both.0, All-sort_inv P xs both.1)

  -- The first entry of the sorted list: an entry of the list that none precedes.
  abbrev pub IsLeast : A → List A → Type 0
  IsLeast x xs = All (λ y. lt y x ≡ false) xs

  pub sort-IsLeast :
      IsOrder lt → (xs : List A) (x : A) (rest : List A) → sort xs ≡ x ∷ rest → IsLeast x xs
  sort-IsLeast o xs x rest e =
      All-sort_inv (λ y. lt y x ≡ false) xs
        (subst (All (λ y. lt y x ≡ false)) (sym e)
          (irreflexive x, (subst IsSorted e (sort-IsSorted o xs)).0))
    where
      irreflexive : (x : A) → lt x x ≡ false
      irreflexive x = elim (Bool-cases (lt x x)) [ inl p ↦ o.asym x x p | inr p ↦ p ]

  -- In a sorted list nothing behind a place has to precede anything before it.
  pub IsSorted-split :
      (n : ℕ) (xs : List A)
      → IsSorted xs
      → All (λ x. All (λ y. lt y x ≡ false) (drop n xs)) (take n xs)
  IsSorted-split zero xs s = tt
  IsSorted-split (suc n) [] s = tt
  IsSorted-split (suc n) (x ∷ xs) s = (All-drop _ n xs s.0, IsSorted-split n xs s.1)
    where
      All-drop : (P : A → Type 0) (n : ℕ) (xs : List A) → All P xs → All P (drop n xs)
      All-drop P zero xs h = h
      All-drop P (suc n) [] h = tt
      All-drop P (suc n) (x ∷ xs) h = All-drop P n xs h.1
