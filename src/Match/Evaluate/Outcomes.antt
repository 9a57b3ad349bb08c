-- ===== src/Match/Evaluate/Outcomes.antt =====
-- What `evaluateRound` of packages/game-core/src/match-state-machine.ts does to the players.
use the_arena_of.Prelude.{
  ◌≡◌, refl, ap, subst, sym, ◌∙◌, true, false, not, ◌++◌, Option, none, some, inl, inr, Bool-cases,
  if◌then◌else◌, keep_if, includes, All, Distinct, Perm, list_eq, nat_eq, ◌⊎◌,
}
use the_arena_of.Prelude.Dict.{get}
use the_arena_of.Errors.{Result, ok, err, no_active_round, frozen_array}
use the_arena_of.Text.{Str}
use the_arena_of.Rules.Elimination.{survives, eliminations_for_round}
use the_arena_of.Match.State.{PlayerInfo, RoundState, RoundStatus, Machine}
use the_arena_of.Match.Log.{log_event}
use the_arena_of.Match.Evaluate.{
  starting_list, settle_players, Evaluation, evaluate_in, evaluate_round,
}
use the_arena_of.Match.Evaluate.Players.{out_iff, outcome, settle_players-get}

evaluate_round-some :
    (m : Machine) (r : RoundState) → m.current_round ≡ some r → evaluate_round m ≡ evaluate_in r m
unfolding evaluate_round
evaluate_round-some m r e = go m.current_round e
  where
    go :
        (o : Option RoundState)
        → o ≡ some r
        → elim o [ none ↦ (m, err no_active_round) | some s ↦ evaluate_in s m ] ≡ evaluate_in r m
    go none h = cc
    go (some s) h = cc

-- The outcome of an evaluation that returned: the split of the starting players.
pub record Partition (m : Machine) (r : RoundState) (p : Machine × Result Evaluation) : Type 0 where
  pub evaluation : Evaluation
  pub returned : p.1 ≡ ok evaluation
  pub split :
      Perm
        (starting_list r.starting_players m.state.surviving_player_ids)
        (evaluation.surviving_ids ++ evaluation.eliminated_ids)
  pub right : All (λ id. survives m.host.locale r id ≡ true) evaluation.surviving_ids
  pub wrong : All (λ id. not (survives m.host.locale r id) ≡ true) evaluation.eliminated_ids
  pub survivors : p.0.state.surviving_player_ids ≡ evaluation.surviving_ids
  pub out :
      p.0.state.eliminated_player_ids ≡ m.state.eliminated_player_ids ++ evaluation.eliminated_ids
  pub completed : p.0.current_round ≡ some (record r { status = RoundStatus.completed })

-- The outcome of an evaluation that threw at the frozen array: the survivors are set, the eliminated players
-- are not recorded, and the round stays in evaluation.
pub record Interrupted (m : Machine) (r : RoundState) (p : Machine × Result Evaluation)
    : Type 0 where
  pub threw : p.1 ≡ err frozen_array
  pub survivors :
      p.0.state.surviving_player_ids
      ≡ keep_if
          (survives m.host.locale r)
          (starting_list r.starting_players m.state.surviving_player_ids)
  pub out : p.0.state.eliminated_player_ids ≡ m.state.eliminated_player_ids
  pub evaluating : p.0.current_round ≡ some (record r { status = RoundStatus.evaluating })
  pub log : p.0.event_log ≡ m.event_log

abbrev pub Evaluated : Machine → RoundState → Machine × Result Evaluation → Type 0
Evaluated m r p =
    ((m.eliminated_frozen ≡ false) × Partition m r p)
    ⊎ ((m.eliminated_frozen ≡ true) × Interrupted m r p)

evaluate_in-players :
    (m : Machine) (r : RoundState)
    → let starting = starting_list r.starting_players m.state.surviving_player_ids in
      (evaluate_in r m).0.state.players
      ≡ settle_players r (eliminations_for_round m.host.locale r starting) starting m.state.players
unfolding evaluate_in log_event
evaluate_in-players m r = elim (Bool-cases m.eliminated_frozen) [
  | inl f ↦ rw (f, evaluate_in) refl
  | inr f ↦ rw (f, evaluate_in) refl
]

-- The evaluation, whether it returns or throws, gives each starting player whose answer is right one more
-- right answer, the answer's time and the answer's points, and eliminates each other one; a player who
-- did not start the round keeps every field. The starting players are distinct.
pub evaluate_round-players :
    (m : Machine) (r : RoundState)
    → m.current_round ≡ some r
    → Distinct (starting_list r.starting_players m.state.surviving_player_ids)
    → (id : Str) (p : PlayerInfo) → get m.state.players id ≡ some p
    → get (evaluate_round m).0.state.players id
      ≡ some (
          if includes (starting_list r.starting_players m.state.surviving_player_ids) id
          then outcome m.host.locale r id p
          else p)
evaluate_round-players m r e d id p f =
    let starting = starting_list r.starting_players m.state.surviving_player_ids in
    subst
      (λ (q : Machine × Result Evaluation).
        get q.0.state.players id
        ≡ some (if includes starting id then outcome m.host.locale r id p else p))
      (sym (evaluate_round-some m r e))
      (ap (λ players. get players id) (evaluate_in-players m r)
        ∙ settle_players-get m.host.locale r (eliminations_for_round m.host.locale r starting)
            starting m.state.players id p d (out_iff m.host.locale r starting) f)
