-- ===== src/Tests/Timers.antt =====
-- The theorem on the registry of the game loop at a concrete run.
use the_arena_of.Prelude.{ℕ, ◌≡◌, ◌≤◌, ◌+◌, true, List, [], ◌∷◌, includes, list_eq, nat_eq}
use the_arena_of.Text.{lit}
use the_arena_of.Timers.{Registry, new_registry}
use the_arena_of.Timers.Guards.{count}
use the_arena_of.Timers.Runs.{one_at_a_time}
use the_arena_of.Timers.Calls.{
  match_end, RegistryCall, adds_timer, begins, ends, disposes, begin, release, in_flight,
  apply_calls, acquisitions, release_count,
}

-- Two calls finish the match at once, then the winner disposes it and ends.
abbrev calls : List (RegistryCall ℕ)
calls =
    adds_timer (lit "m") 7
    ∷ begins match_end (lit "m")
    ∷ begins match_end (lit "m")
    ∷ disposes (lit "m")
    ∷ ends match_end (lit "m")
    ∷ begins match_end (lit "m")
    ∷ []

abbrev last : Registry ℕ
last = apply_calls calls new_registry

one_at_a_time_example :
    (acquisitions match_end (lit "m") calls new_registry
      ≤ release_count match_end (lit "m") calls
        + count (includes (in_flight match_end last) (lit "m")))
    × ((begin match_end (lit "m") (release match_end (lit "m") last)).1 ≡ true)
one_at_a_time_example = one_at_a_time match_end (lit "m") calls
