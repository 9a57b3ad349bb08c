-- ===== src/Match/Phase/Anchors.antt =====
-- The phase deadline and the result anchor of packages/game-core/src/match-state-machine.ts.
use the_arena_of.Match.Log.{log_event}
use the_arena_of.Prelude.{
  Bool, suc, ℕ, ◌+◌, ◌≡◌, refl, true, false, Option, none, some, inl, inr, Bool-cases, includes,
  ◌⊎◌,
}
use the_arena_of.Errors.{ok, err, invalid_transition}
use the_arena_of.Match.State.{
  state_transition, MatchState, RoundState, Payload, MatchStatus, created, topic_voting, countdown,
  round_active, round_evaluating, round_result, finished, status_eq, status_beq, Machine,
}
use the_arena_of.Match.Phase.{
  log_event, valid_transitions, can_transition, transition, result_display_ms, set_status, enter,
}

-- The result phase has its start, and ends 3 s behind it; no other phase has such a start, and a
-- finished match has no deadline.
abbrev pub Anchored : MatchStatus → Option ℕ → Option ℕ → Type 0
Anchored round_result start ends =
    (t : ℕ) × (start ≡ some t) × (ends ≡ some (t + result_display_ms))
Anchored finished start ends = (start ≡ none) × (ends ≡ none)
Anchored round_evaluating start ends = (start ≡ none) × (ends ≡ none)
Anchored _ start ends = start ≡ none

abbrev pub IsAnchored : Machine → Type 0
IsAnchored m = Anchored m.state.status m.state.round_result_started_at m.state.phase_ends_at

-- No phase leads back to the first one.
not-created : (s : MatchStatus) → includes (valid_transitions s) created ≡ false
unfolding status_beq
not-created created = refl
not-created topic_voting = refl
not-created countdown = refl
not-created round_active = refl
not-created round_evaluating = refl
not-created round_result = refl
not-created finished = refl

-- What a phase is entered with: its start, its deadline and its round. The event's log entry reads the clock
-- once, and a phase with a start reads it again for its deadline.
abbrev pub Entered : MatchStatus → Machine → MatchState → Option RoundState → Type 0
Entered created m s round = Path Bool false true
Entered topic_voting m s round =
    (s.started_at ≡ some (m.host.clock (suc m.reads)))
    × (s.phase_ends_at ≡ some (m.host.clock (suc (suc m.reads)) + 10000))
    × (s.round_result_started_at ≡ none)
    × (round ≡ m.current_round)
Entered countdown m s round =
    (s.started_at ≡ some (m.host.clock (suc m.reads)))
    × (s.phase_ends_at ≡ some (m.host.clock (suc (suc m.reads)) + 5000))
    × (s.round_result_started_at ≡ none)
    × (round ≡ m.current_round)
Entered round_active m s round =
    (s.phase_ends_at ≡ none) × (s.round_result_started_at ≡ none) × (round ≡ none)
Entered round_evaluating m s round =
    (s.phase_ends_at ≡ none) × (s.round_result_started_at ≡ none) × (round ≡ m.current_round)
Entered round_result m s round =
    (s.round_result_started_at ≡ some (m.host.clock (suc m.reads)))
    × (s.phase_ends_at ≡ some (m.host.clock (suc m.reads) + 3000))
    × (round ≡ m.current_round)
Entered finished m s round =
    (s.ended_at ≡ some (m.host.clock (suc m.reads)))
    × (s.phase_ends_at ≡ none)
    × (s.round_result_started_at ≡ none)
    × (round ≡ m.current_round)

abbrev Arrived : MatchStatus → Machine → Machine → Type 0
Arrived to m m' = (m'.state.status ≡ to) × IsAnchored m' × Entered to m m'.state m'.current_round

entered :
    (s to : MatchStatus) (p : Payload) (m : Machine)
    → includes (valid_transitions s) to ≡ true
    → Arrived to m (enter to (set_status to (log_event p m)))
unfolding enter log_event
entered s created p m h = cc (not-created s)
entered s topic_voting p m h = (refl, refl, (refl, refl, refl, refl))
entered s countdown p m h = (refl, refl, (refl, refl, refl, refl))
entered s round_active p m h = (refl, refl, (refl, refl, refl))
entered s round_evaluating p m h = (refl, (refl, refl), (refl, refl, refl))
entered s round_result p m h = (refl, (m.host.clock (suc m.reads), refl, refl), (refl, refl, refl))
entered s finished p m h = (refl, (refl, refl), (refl, refl, refl, refl))

-- An accepted transition enters the phase, with that phase's start and deadline from the clock, whatever stood
-- there before, and keeps the round but where a new one is to begin; a refused one changes nothing. It is
-- accepted exactly along the table.
pub transition-Anchored :
    (to : MatchStatus) (m : Machine)
    → ((includes (valid_transitions m.state.status) to ≡ true)
        × ((transition to m).1 ≡ ok tt)
        × ((transition to m).0.state.status ≡ to)
        × IsAnchored (transition to m).0
        × Entered to m (transition to m).0.state (transition to m).0.current_round)
      ⊎ ((includes (valid_transitions m.state.status) to ≡ false)
          × (transition to m ≡ (m, err invalid_transition)))
unfolding transition
transition-Anchored to m = elim (Bool-cases (can_transition to m)) [
  | inl e ↦
      let into = entered m.state.status to (state_transition m.state.status to) m e in
      inl (
        e,
        rw (e, transition) refl,
        rw (e, transition) into.0,
        rw (e, transition) into.1,
        rw (e, transition) into.2,
      )
  | inr e ↦ inr (e, rw (e, transition) refl)
]
