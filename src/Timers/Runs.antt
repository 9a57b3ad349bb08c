-- ===== src/Timers/Runs.antt =====
-- The calls of the registry in apps/api/src/modules/match/match-timer.registry.ts, in any order: no round is
-- ended twice at once, and no match finished twice at once.
use the_arena_of.Prelude.{
  ℕ, ◌≡◌, refl, sym, ◌∙◌, ◌≤◌, ◌+◌, Bool, true, false, not, List, [], ◌∷◌, inl, inr, Bool-cases,
  includes, Distinct, list_eq, nat_eq, arith, subst, ap,
}
use the_arena_of.Text.{Str}
use the_arena_of.Timers.{Registry, new_registry, end_end_round, end_finish}
use the_arena_of.Timers.Guards.{
  count, acquired-count, discard-count, acquired-Distinct, discard-Distinct, excludes-discard_self,
}
use the_arena_of.Timers.Calls.{
  Guard, round_end, match_end, RegistryCall, ensures, adds_timer, clears, inits, marks, expects,
  begins, ends, registers, disposes, begin, release, in_flight, apply_call, apply_calls, same_guard,
  acquires, releases, acquisitions, release_count, begin_lem, after, step-in_flight,
}

module _ {ℓ} {P : Type ℓ} where
  begins-count :
      (g h : Guard) (id j : Str) (r : Registry P)
      → count (acquires g id (begins h j) r) + count (includes (in_flight g r) id)
        ≤ count (includes (after {P = P} g (begins h j) (in_flight g r)) id)
  begins-count round_end round_end id j r =
      rw ((begin_lem round_end j r).0) (acquired-count r.ending_rounds j id)
  begins-count match_end match_end id j r =
      rw ((begin_lem match_end j r).0) (acquired-count r.finishing_matches j id)
  begins-count round_end match_end id j r = omega arith
  begins-count match_end round_end id j r = omega arith

  ends-count :
      (g h : Guard) (id j : Str) (r : Registry P)
      → count (includes (in_flight g r) id)
        ≤ count (releases {P = P} g id (ends h j))
          + count (includes (after {P = P} g (ends h j) (in_flight g r)) id)
  ends-count round_end round_end id j r = discard-count r.ending_rounds j id
  ends-count match_end match_end id j r = discard-count r.finishing_matches j id
  ends-count round_end match_end id j r = omega arith
  ends-count match_end round_end id j r = omega arith

  -- A call that acquires the guard finds it free and leaves it in flight; only a release frees it.
  step-count :
      (g : Guard) (id : Str) (c : RegistryCall P) (r : Registry P)
      → count (acquires g id c r) + count (includes (in_flight g r) id)
        ≤ count (releases g id c) + count (includes (in_flight g (apply_call c r)) id)
  step-count g id c r = rw (step-in_flight g c r) (by_call c)
    where
      no_release : (a b : ℕ) → a ≤ b → a ≤ 0 + b
      no_release a b h = omega arith

      no_acquisition : (a b : ℕ) → a ≤ b → 0 + a ≤ b
      no_acquisition a b h = omega arith

      by_call :
          (d : RegistryCall P)
          → count (acquires g id d r) + count (includes (in_flight g r) id)
            ≤ count (releases g id d) + count (includes (after g d (in_flight g r)) id)
      by_call (ensures _) = omega arith
      by_call (adds_timer _ _) = omega arith
      by_call (clears _) = omega arith
      by_call (inits _) = omega arith
      by_call (marks _ _) = omega arith
      by_call (expects _ _) = omega arith
      by_call (begins h j) = no_release _ _ (begins-count g h id j r)
      by_call (ends h j) = no_acquisition _ _ (ends-count g h id j r)
      by_call (registers _ _) = omega arith
      by_call (disposes _) = omega arith

  run-count :
      (g : Guard) (id : Str) (cs : List (RegistryCall P)) (r : Registry P)
      → acquisitions g id cs r + count (includes (in_flight g r) id)
        ≤ release_count g id cs + count (includes (in_flight g (apply_calls cs r)) id)
  unfolding apply_calls
  run-count g id [] r = omega arith
  run-count g id (c ∷ cs) r =
      by_sum _ _ _ _ _ _ _ (step-count g id c r) (run-count g id cs (apply_call c r))
    where
      by_sum :
          (a b f f' f'' x y : ℕ) → a + f ≤ x + f' → b + f' ≤ y + f'' → (a + b) + f ≤ (x + y) + f''
      by_sum a b f f' f'' x y h k = omega arith

  step-Distinct :
      (g : Guard) (c : RegistryCall P) (r : Registry P)
      → Distinct (in_flight g r)
      → Distinct (in_flight g (apply_call c r))
  step-Distinct g c r d = subst Distinct (sym (step-in_flight g c r)) (by_call c)
    where
      by_guard_begin :
          (h : Guard) (j : Str) → Distinct (after {P = P} g (begins h j) (in_flight g r))
      by_guard_begin h j = elim (Bool-cases (same_guard h g)) [
        | inl e ↦ rw e (acquired-Distinct (in_flight g r) j d)
        | inr e ↦ rw e d
      ]

      by_guard_end : (h : Guard) (j : Str) → Distinct (after {P = P} g (ends h j) (in_flight g r))
      by_guard_end h j = elim (Bool-cases (same_guard h g)) [
        | inl e ↦ rw e (discard-Distinct (in_flight g r) j d)
        | inr e ↦ rw e d
      ]

      by_call : (b : RegistryCall P) → Distinct (after g b (in_flight g r))
      by_call (ensures _) = d
      by_call (adds_timer _ _) = d
      by_call (clears _) = d
      by_call (inits _) = d
      by_call (marks _ _) = d
      by_call (expects _ _) = d
      by_call (begins h j) = by_guard_begin h j
      by_call (ends h j) = by_guard_end h j
      by_call (registers _ _) = d
      by_call (disposes _) = d

  run-Distinct :
      (g : Guard) (cs : List (RegistryCall P)) (r : Registry P)
      → Distinct (in_flight g r)
      → Distinct (in_flight g (apply_calls cs r))
  unfolding apply_calls
  run-Distinct g [] r d = d
  run-Distinct g (c ∷ cs) r d = run-Distinct g cs (apply_call c r) (step-Distinct g c r d)

  released-free :
      (g : Guard) (id : Str) (r : Registry P)
      → Distinct (in_flight g r)
      → (begin g id (release g id r)).1 ≡ true
  unfolding end_end_round end_finish
  released-free round_end id r d =
      (begin_lem round_end id (release round_end id r)).0
      ∙ ap not (excludes-discard_self r.ending_rounds id d)
  released-free match_end id r d =
      (begin_lem match_end id (release match_end id r)).0
      ∙ ap not (excludes-discard_self r.finishing_matches id d)

  -- After any calls on a new registry, for either guard and any match: the calls that acquired the guard are
  -- no more than those that released it, and one more if it is in flight; and after a release the next call
  -- acquires it.
  pub one_at_a_time :
      (g : Guard) (id : Str) (cs : List (RegistryCall P))
      → let r = apply_calls cs (new_registry {P = P}) in
        (acquisitions g id cs new_registry
          ≤ release_count g id cs + count (includes (in_flight g r) id))
        × ((begin g id (release g id r)).1 ≡ true)
  one_at_a_time g id cs = (
    by_start _ _ (free g) (run-count g id cs new_registry),
    released-free g id (apply_calls cs new_registry) (run-Distinct g cs new_registry (distinct g)),
  )
    where
      by_start : (a b : ℕ) {x : Bool} → x ≡ false → a + count x ≤ b → a ≤ b
      by_start a b e h = ground (arith, e, h)

      distinct : (h : Guard) → Distinct (in_flight h (new_registry {P = P}))
      distinct round_end = tt
      distinct match_end = tt

      free : (h : Guard) → includes (in_flight h (new_registry {P = P})) id ≡ false
      free round_end = refl
      free match_end = refl
