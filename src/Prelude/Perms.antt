-- ===== src/Prelude/Perms.antt =====
-- A test that no entry passes, on a list in another order.
use mathlib.Core.Bool.{Bool, false, Bool-set}
use mathlib.Core.Logic.Or
use mathlib.Core.List.{
  List, [], ◌∷◌, Perm, Mem, eq-or-mem_of_mem-cons, mem-cons_self, mem-cons_of_mem, not-mem-nil,
}
use mathlib.Core.List.Perm
use mathlib.Core.Path.{◌≡◌, ap, ◌∙◌}
use the_arena_of.Prelude.Lists.{All}

module _ {ℓ} {A : Type ℓ} (p : A → Bool) where
  All-Mem : (xs : List A) → All (λ x. p x ≡ false) xs → (a : A) → Mem a xs → p a ≡ false
  All-Mem [] h a m = absurd (not-mem-nil m)
  All-Mem (x ∷ xs) h a m =
      Or.elim (Bool-set (p a) false) (eq-or-mem_of_mem-cons m) (λ e. ap p e ∙ h.0)
        (All-Mem xs h.1 a)

  Mem-All : (xs : List A) → ((a : A) → Mem a xs → p a ≡ false) → All (λ x. p x ≡ false) xs
  Mem-All [] h = tt
  Mem-All (x ∷ xs) h = (h x mem-cons_self, Mem-All xs (λ a m. h a (mem-cons_of_mem x m)))

  -- What no entry passes, none passes in another order.
  pub All-Perm :
      (xs ys : List A) → Perm xs ys → All (λ x. p x ≡ false) xs → All (λ x. p x ≡ false) ys
  All-Perm xs ys d h = Mem-All ys (λ a m. All-Mem xs h a ((Perm.mem_iff d).1 m))
