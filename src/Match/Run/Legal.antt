-- ===== src/Match/Run/Legal.antt =====
-- The moves of a match between its phases, as packages/game-core/src/match-state-machine.ts makes them.
use the_arena_of.Prelude.{
  ℕ, ◌≡◌, refl, sym, ap, subst, ◌∙◌, Bool, true, false, List, [], ◌∷◌, Option, none, some, inl, inr,
  ◌⊎◌, Bool-cases, includes, ◌==◌, list_eq, nat_eq,
}
use the_arena_of.Prelude.Dict.{or_else}
use the_arena_of.Text.{Str}
use the_arena_of.Errors.{Result, ok, err}
use the_arena_of.Cards.Defs.{card_eq}
use the_arena_of.Match.State.{MatchStatus, topic_voting, round_active, finished, status_eq, Machine}
use the_arena_of.Match.Log.{log_event}
use the_arena_of.Match.Phase.{valid_transitions, transition, topic_voting_duration_ms}
use the_arena_of.Match.Phase.Anchors.{transition-Anchored}
use the_arena_of.Match.Round.{Question, start_round}
use the_arena_of.Match.Topics.{
  chosen_topics, reset_draft, tick_unless, open_voting, after_transition, init_topic_voting,
  resolve_topic_voting, vote_ban_topic,
}
use the_arena_of.Match.CardPlay.{class_assignment, pick_offer, pick_card, play_card}
use the_arena_of.Match.Winner.{determine_winner}
use the_arena_of.Match.Run.{
  Command, transits, starts_round, submits, evaluates, attaches, determines, finishes, disconnects,
  reconnects, opens_voting, votes, closes_voting, assigns_classes, offers, picks, plays, step, run,
}
use the_arena_of.Match.Run.Untouched.{
  determine_winner-Untouched, vote_ban_topic-Untouched, pick_offer-Untouched, pick_card-Untouched,
  play_card-Untouched,
}
use the_arena_of.Match.Run.Stays.{
  Stays, Untouched-Stays, submit_answer-Stays, evaluate_round-Stays, attach_correct_answer-Stays,
  finish_match-Stays, disconnect_player-Stays, reconnect_player-Stays,
}

-- The phase stays, or moves along the table.
abbrev pub Moves : Machine → Machine → Type 0
Moves m m' =
    (m'.state.status ≡ m.state.status)
    ⊎ (includes (valid_transitions m.state.status) m'.state.status ≡ true)

transition-Moves : (to : MatchStatus) (m : Machine) → Moves m (transition to m).0
transition-Moves to m = elim (transition-Anchored to m) [
  | inl (e, _, s, _, _) ↦
      inr (subst (λ x. includes (valid_transitions m.state.status) x ≡ true) (sym s) e)
  | inr (_, e) ↦ inl (ap (λ p. p.0.state.status) e)
]

after_transition-status :
    (ts : List Str) (d : ℕ) (p : Machine × Result (Unit {0}))
    → (after_transition ts d p).0.state.status ≡ p.0.state.status
unfolding after_transition open_voting log_event
after_transition-status ts d (m, ok _) = by_start m.state.started_at
  where
    by_start : (o : Option ℕ) → (tick_unless o m).state.status ≡ m.state.status
    by_start none = refl
    by_start (some t) = refl
after_transition-status ts d (m, err e) = refl

init_topic_voting-Moves :
    (ts : Option (List Str)) (d : Option ℕ) (m : Machine) → Moves m (init_topic_voting ts d m).0
unfolding init_topic_voting
init_topic_voting-Moves ts d m =
    let topics = chosen_topics m ts in
    let begun = transition topic_voting (reset_draft topics m) in
    let same_status = after_transition-status topics (or_else d topic_voting_duration_ms) begun in
    elim (transition-Moves topic_voting (reset_draft topics m)) [
      | inl e ↦ inl (same_status ∙ e)
      | inr e ↦
          inr
            (subst (λ x. includes (valid_transitions m.state.status) x ≡ true) (sym same_status) e)
    ]

start_round-status :
    (q : Question) (d : Option ℕ) (m : Machine)
    → (start_round q d m).0.state.status ≡ m.state.status
unfolding start_round log_event
start_round-status q d m = elim (Bool-cases (m.state.status == round_active)) [
  | inl e ↦ rw (e, start_round) refl
  | inr e ↦ rw (e, start_round) refl
]

-- The case rule for a call: three methods touch the phase or its times, all others let them stay.
pub step_cases {ℓ} :
    (m : Machine) (P : Machine → Type ℓ)
    → ((m' : Machine) → Stays m m' → P m')
    → ((to : MatchStatus) → P (transition to m).0)
    → ((q : Question) (d : Option ℕ) → P (start_round q d m).0)
    → ((ts : Option (List Str)) (d : Option ℕ) → P (init_topic_voting ts d m).0)
    → (c : Command) → P (step c m)
unfolding step resolve_topic_voting class_assignment log_event
step_cases m P stays moved started opened (transits to) = moved to
step_cases m P stays moved started opened (starts_round q d) = started q d
step_cases m P stays moved started opened (submits id a t s) =
    stays _ (submit_answer-Stays id a t s m)
step_cases m P stays moved started opened evaluates = stays _ (evaluate_round-Stays m)
step_cases m P stays moved started opened (attaches a) = stays _ (attach_correct_answer-Stays a m)
step_cases m P stays moved started opened determines =
    stays _ (Untouched-Stays m (determine_winner m).0 (determine_winner-Untouched m))
step_cases m P stays moved started opened finishes = stays _ (finish_match-Stays m)
step_cases m P stays moved started opened (disconnects id) = stays _ (disconnect_player-Stays id m)
step_cases m P stays moved started opened (reconnects id) = stays _ (reconnect_player-Stays id m)
step_cases m P stays moved started opened (opens_voting ts d) = opened ts d
step_cases m P stays moved started opened (votes id t e) =
    stays _ (Untouched-Stays m (vote_ban_topic id t e m).0 (vote_ban_topic-Untouched id t e m))
step_cases m P stays moved started opened (closes_voting n) =
    stays (resolve_topic_voting n m).0 refl
step_cases m P stays moved started opened (assigns_classes ids x) =
    stays (class_assignment ids x m).0 refl
step_cases m P stays moved started opened (offers id n x) =
    stays _ (Untouched-Stays m (pick_offer id n x m).0 (pick_offer-Untouched id n x m))
step_cases m P stays moved started opened (picks id c n e k) =
    stays _ (Untouched-Stays m (pick_card id c n e k m).0 (pick_card-Untouched id c n e k m))
step_cases m P stays moved started opened (plays id c n f ts t e k) =
    stays _ (
      Untouched-Stays m (play_card id c n f ts t e k m).0 (play_card-Untouched id c n f ts t e k m))

-- Every call, whether it returns or throws and whatever its arguments, leaves the phase of the match as
-- it was or moves it along the table of transitions.
pub step-Moves : (c : Command) (m : Machine) → Moves m (step c m)
step-Moves c m =
    step_cases m (Moves m) (λ m' e. inl (ap (λ p. p.0) e)) (λ to. transition-Moves to m)
      (λ q d. inl (start_round-status q d m)) (λ ts d. init_topic_voting-Moves ts d m) c

-- A finished match stays finished, whatever is called on it.
pub run-finished :
    (cs : List Command) (m : Machine)
    → m.state.status ≡ finished
    → (run cs m).state.status ≡ finished
unfolding run
run-finished [] m h = h
run-finished (c ∷ cs) m h = run-finished cs (step c m) (elim (step-Moves c m) [
  | inl e ↦ e ∙ h
  | inr e ↦ stuck (ap (λ s. includes (valid_transitions s) (step c m).state.status) (sym h) ∙ e)
])
  where
    stuck : Path Bool false true → (step c m).state.status ≡ finished
    stuck e = cc
