-- ===== src/Match/Run/Anchored.antt =====
-- The start of the result phase and the deadline of a phase, in packages/game-core/src/match-state-machine.ts.
use the_arena_of.Prelude.{
  ℕ, ◌≡◌, refl, sym, subst, List, [], ◌∷◌, Option, none, inl, inr, Bool-cases, ◌==◌,
}
use the_arena_of.Text.{Str}
use the_arena_of.Errors.{Result}
use the_arena_of.Match.State.{
  MatchStatus, topic_voting, round_active, status_eq, Host, PlayerInfo, Machine,
}
use the_arena_of.Match.Log.{log_event, new_machine}
use the_arena_of.Match.Phase.{can_transition, enter, transition}
use the_arena_of.Match.Phase.Anchors.{Anchored, IsAnchored, transition-Anchored}
use the_arena_of.Match.Round.{Question, start_round}
use the_arena_of.Match.Topics.{chosen_topics, reset_draft, init_topic_voting}
use the_arena_of.Match.Run.{Command, step, run}
use the_arena_of.Match.Run.Stays.{Stays}
use the_arena_of.Match.Run.Legal.{step_cases}

Stays-IsAnchored : (m m' : Machine) → IsAnchored m → Stays m m' → IsAnchored m'
Stays-IsAnchored m m' a e =
    subst (λ (p : MatchStatus × Option ℕ × Option ℕ). Anchored p.0 p.1 p.2) (sym e) a

transition-IsAnchored :
    (to : MatchStatus) (m : Machine) → IsAnchored m → IsAnchored (transition to m).0
transition-IsAnchored to m a = elim (transition-Anchored to m) [
  | inl (_, _, _, b, _) ↦ b
  | inr (_, e) ↦ subst (λ (p : Machine × Result (Unit {0})). IsAnchored p.0) (sym e) a
]

active-Anchored : (s : MatchStatus) (ends : Option ℕ) → s ≡ round_active → Anchored s none ends
active-Anchored s ends e = subst (λ x. Anchored x none ends) (sym e) refl

start_round-IsAnchored :
    (q : Question) (d : Option ℕ) (m : Machine) → IsAnchored m → IsAnchored (start_round q d m).0
unfolding start_round log_event
start_round-IsAnchored q d m a = elim (Bool-cases (m.state.status == round_active)) [
  | inl e ↦
      rw (e, start_round)
        (active-Anchored m.state.status _ ((status_eq.beq_iff m.state.status round_active).0 e))
  | inr e ↦ rw (e, start_round) a
]

init_topic_voting-IsAnchored :
    (ts : Option (List Str)) (d : Option ℕ) (m : Machine)
    → IsAnchored m
    → IsAnchored (init_topic_voting ts d m).0
unfolding init_topic_voting transition enter log_event
init_topic_voting-IsAnchored ts d m a =
    elim (Bool-cases (can_transition topic_voting (reset_draft (chosen_topics m ts) m))) [
      | inl e ↦ rw (e, init_topic_voting) refl
      | inr e ↦ rw (e, init_topic_voting) a
    ]

step-IsAnchored : (c : Command) (m : Machine) → IsAnchored m → IsAnchored (step c m)
step-IsAnchored c m a =
    step_cases m IsAnchored (λ m' e. Stays-IsAnchored m m' a e) (λ to. transition-IsAnchored to m a)
      (λ q d. start_round-IsAnchored q d m a) (λ ts d. init_topic_voting-IsAnchored ts d m a) c

run-IsAnchored : (cs : List Command) (m : Machine) → IsAnchored m → IsAnchored (run cs m)
unfolding run
run-IsAnchored [] m a = a
run-IsAnchored (c ∷ cs) m a = run-IsAnchored cs (step c m) (step-IsAnchored c m a)

-- After any calls on a new match: in the result phase its start is set and the deadline is the display
-- time behind it; in every other phase that start is unset, and while a round is evaluated or after the
-- end there is no deadline.
pub run_new-IsAnchored :
    (host : Host) (id room : Str) (players : List PlayerInfo) (cs : List Command)
    → IsAnchored (run cs (new_machine host id room players))
unfolding new_machine
run_new-IsAnchored host id room players cs =
    run-IsAnchored cs (new_machine host id room players) refl
