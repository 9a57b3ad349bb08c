-- ===== src/Timers/Calls.antt =====
-- The calls of the registry in apps/api/src/modules/match/match-timer.registry.ts, and what each does to
-- the two sets of its guards.
use the_arena_of.Prelude.{
  ℕ, ◌≡◌, refl, ◌+◌, Bool, true, false, not, ◌&&◌, List, [], ◌∷◌, inl, inr, if◌then◌else◌,
  Option-cases, Bool-cases, includes, ◌==◌, list_eq, nat_eq,
}
use the_arena_of.Prelude.Dict.{get, has, discard}
use the_arena_of.Text.{Str}
use the_arena_of.Timers.{
  Registry, ensure_match, add_timer, clear_timers, init_used_questions, mark_question_used,
  set_expected_answers, begin_end_round, end_end_round, begin_finish, end_finish,
  register_finish_promise, dispose_match,
}
use the_arena_of.Timers.Guards.{count, acquired}

pub data Guard : Type 0 where
  round_end match_end : Guard

-- The calls that change the registry.
pub data RegistryCall {ℓ} (P : Type ℓ) : Type ℓ where
  ensures : Str → RegistryCall P
  adds_timer : Str → ℕ → RegistryCall P
  clears : Str → RegistryCall P
  inits : Str → RegistryCall P
  marks : Str → Str → RegistryCall P
  expects : Str → ℕ → RegistryCall P
  begins : Guard → Str → RegistryCall P
  ends : Guard → Str → RegistryCall P
  registers : Str → P → RegistryCall P
  disposes : Str → RegistryCall P

abbrev pub same_guard : Guard → Guard → Bool
same_guard round_end round_end = true
same_guard match_end match_end = true
same_guard _ _ = false

module _ {ℓ} {P : Type ℓ} where
  -- A call of `beginEndRound` or `beginFinish`, and the release.
  abbrev pub begin : Guard → Str → Registry P → Registry P × Bool
  begin round_end match_id r = begin_end_round match_id r
  begin match_end match_id r = begin_finish match_id r

  abbrev pub release : Guard → Str → Registry P → Registry P
  release round_end match_id r = end_end_round match_id r
  release match_end match_id r = end_finish match_id r

  -- The matches that are in flight.
  abbrev pub in_flight : Guard → Registry P → List Str
  in_flight round_end r = r.ending_rounds
  in_flight match_end r = r.finishing_matches

  unfoldable pub apply_call : RegistryCall P → Registry P → Registry P
  apply_call (ensures id) r = ensure_match id r
  apply_call (adds_timer id t) r = add_timer id t r
  apply_call (clears id) r = clear_timers id r
  apply_call (inits id) r = init_used_questions id r
  apply_call (marks id q) r = mark_question_used id q r
  apply_call (expects id n) r = set_expected_answers id n r
  apply_call (begins g id) r = (begin g id r).0
  apply_call (ends g id) r = release g id r
  apply_call (registers id p) r = register_finish_promise id p r
  apply_call (disposes id) r = dispose_match id r

  unfoldable pub apply_calls : List (RegistryCall P) → Registry P → Registry P
  apply_calls [] r = r
  apply_calls (c ∷ cs) r = apply_calls cs (apply_call c r)

  -- Whether a call acquires, or releases, the guard of a match.
  abbrev pub acquires : Guard → Str → RegistryCall P → Registry P → Bool
  acquires g id (begins h j) r = same_guard h g && ((j == id) && (begin h j r).1)
  acquires g id _ r = false

  abbrev pub releases : Guard → Str → RegistryCall P → Bool
  releases g id (ends h j) = same_guard h g && (j == id)
  releases g id _ = false

  -- How many of the calls acquire it, and how many release it.
  abbrev pub acquisitions : Guard → Str → List (RegistryCall P) → Registry P → ℕ
  acquisitions g id [] r = 0
  acquisitions g id (c ∷ cs) r = count (acquires g id c r) + acquisitions g id cs (apply_call c r)

  abbrev pub release_count : Guard → Str → List (RegistryCall P) → ℕ
  release_count g id [] = 0
  release_count g id (c ∷ cs) = count (releases g id c) + release_count g id cs

  -- The set of a guard after a call.
  pub begin_lem :
      (g : Guard) (j : Str) (r : Registry P)
      → ((begin g j r).1 ≡ not (includes (in_flight g r) j))
        × (in_flight g (begin g j r).0 ≡ acquired (in_flight g r) j)
  unfolding begin_end_round begin_finish acquired
  begin_lem round_end j r = elim (Bool-cases (includes r.ending_rounds j)) [
    | inl e ↦ rw (e, begin_end_round) (refl, refl)
    | inr e ↦ rw (e, begin_end_round) (refl, refl)
  ]
  begin_lem match_end j r = elim (Bool-cases (includes r.finishing_matches j)) [
    | inl e ↦ rw (e, begin_finish) (refl, refl)
    | inr e ↦ rw (e, begin_finish) (refl, refl)
  ]

  crossed_round : (j : Str) (r : Registry P) → (begin_finish j r).0.ending_rounds ≡ r.ending_rounds
  unfolding begin_finish
  crossed_round j r = elim (Bool-cases (includes r.finishing_matches j)) [
    | inl e ↦ rw (e, begin_finish) refl
    | inr e ↦ rw (e, begin_finish) refl
  ]

  crossed_match :
      (j : Str) (r : Registry P) → (begin_end_round j r).0.finishing_matches ≡ r.finishing_matches
  unfolding begin_end_round
  crossed_match j r = elim (Bool-cases (includes r.ending_rounds j)) [
    | inl e ↦ rw (e, begin_end_round) refl
    | inr e ↦ rw (e, begin_end_round) refl
  ]

  -- The set of a guard after a call, from the set before.
  abbrev pub after : Guard → RegistryCall P → List Str → List Str
  after g (begins h j) xs = if same_guard h g then acquired xs j else xs
  after g (ends h j) xs = if same_guard h g then discard xs j else xs
  after g _ xs = xs

  ensure_match-in_flight :
      (g : Guard) (id : Str) (r : Registry P) → in_flight g (ensure_match id r) ≡ in_flight g r
  unfolding ensure_match
  ensure_match-in_flight round_end id r = elim (Bool-cases (has r.active_timers id)) [
    | inl e ↦ rw (e, ensure_match) refl
    | inr e ↦ rw (e, ensure_match) refl
  ]
  ensure_match-in_flight match_end id r = elim (Bool-cases (has r.active_timers id)) [
    | inl e ↦ rw (e, ensure_match) refl
    | inr e ↦ rw (e, ensure_match) refl
  ]

  clear_timers-in_flight :
      (g : Guard) (id : Str) (r : Registry P) → in_flight g (clear_timers id r) ≡ in_flight g r
  unfolding clear_timers
  clear_timers-in_flight round_end id r = elim (Option-cases (get r.active_timers id)) [
    | inl e ↦ rw (e, clear_timers) refl
    | inr (ts, e) ↦ rw (e, clear_timers) refl
  ]
  clear_timers-in_flight match_end id r = elim (Option-cases (get r.active_timers id)) [
    | inl e ↦ rw (e, clear_timers) refl
    | inr (ts, e) ↦ rw (e, clear_timers) refl
  ]

  pub step-in_flight :
      (g : Guard) (c : RegistryCall P) (r : Registry P)
      → in_flight g (apply_call c r) ≡ after g c (in_flight g r)
  unfolding apply_call add_timer init_used_questions mark_question_used set_expected_answers
      register_finish_promise dispose_match end_end_round end_finish
  step-in_flight g (ensures id) r = ensure_match-in_flight g id r
  step-in_flight round_end (adds_timer id t) r = ensure_match-in_flight round_end id r
  step-in_flight match_end (adds_timer id t) r = ensure_match-in_flight match_end id r
  step-in_flight g (clears id) r = clear_timers-in_flight g id r
  step-in_flight round_end (inits id) r = refl
  step-in_flight match_end (inits id) r = refl
  step-in_flight round_end (marks id q) r = refl
  step-in_flight match_end (marks id q) r = refl
  step-in_flight round_end (expects id n) r = refl
  step-in_flight match_end (expects id n) r = refl
  step-in_flight round_end (begins round_end j) r = (begin_lem round_end j r).1
  step-in_flight match_end (begins match_end j) r = (begin_lem match_end j r).1
  step-in_flight round_end (begins match_end j) r = crossed_round j r
  step-in_flight match_end (begins round_end j) r = crossed_match j r
  step-in_flight round_end (ends round_end j) r = refl
  step-in_flight match_end (ends match_end j) r = refl
  step-in_flight round_end (ends match_end j) r = refl
  step-in_flight match_end (ends round_end j) r = refl
  step-in_flight round_end (registers id p) r = refl
  step-in_flight match_end (registers id p) r = refl
  step-in_flight round_end (disposes id) r = clear_timers-in_flight round_end id r
  step-in_flight match_end (disposes id) r = clear_timers-in_flight match_end id r
