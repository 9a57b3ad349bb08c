-- ===== src/Match/Synced/Rounds.antt =====
-- The log and the cards under the operations of a round and of the end of a match, in
-- packages/game-core/src/match-state-machine.ts.
use the_arena_of.Prelude.{
  ℕ, refl, Bool, true, false, List, [], ◌∷◌, Option, none, some, inl, inr, Bool-cases, Option-cases,
  includes, ◌==◌, list_eq, nat_eq,
}
use the_arena_of.Prelude.Dict.{get}
use the_arena_of.Text.{Str}
use the_arena_of.Match.State.{
  MatchStatus, created, topic_voting, countdown, round_active, round_evaluating, round_result,
  finished, status_eq, AnswerState, RoundState, Machine, state_transition,
}
use the_arena_of.Match.Log.{log_event}
use the_arena_of.Match.Phase.{can_transition, transition, enter, set_status}
use the_arena_of.Match.Round.{
  Question, start_round, accept_answer, consume_chance, record_answer, submit_in, submit_answer,
  resubmits, refusal, use_chance,
}
use the_arena_of.Match.Evaluate.{evaluate_round, attach_correct_answer}
use the_arena_of.Match.Winner.{
  break_tie, tie_eliminated, determine_from, determine_winner, finish_match,
}
use the_arena_of.Match.Rehydrate.{rehydrate_event}
use the_arena_of.Match.Synced.{IsSynced, log_event-IsSynced}

enter-IsSynced :
    (to : MatchStatus) (m : Machine) → IsSynced m → IsSynced (enter to (set_status to m))
unfolding enter
enter-IsSynced created m s = s
enter-IsSynced topic_voting m s = s
enter-IsSynced countdown m s = s
enter-IsSynced round_active m s = s
enter-IsSynced round_evaluating m s = s
enter-IsSynced round_result m s = s
enter-IsSynced finished m s = s

pub transition-IsSynced :
    (to : MatchStatus) (m : Machine) → IsSynced m → IsSynced (transition to m).0
unfolding transition rehydrate_event
transition-IsSynced to m s = elim (Bool-cases (can_transition to m)) [
  | inl e ↦
      rw (e, transition)
        (enter-IsSynced to (log_event (state_transition m.state.status to) m)
          (log_event-IsSynced _ m m.cards s (λ _. refl)))
  | inr e ↦ rw (e, transition) s
]

pub start_round-IsSynced :
    (q : Question) (d : Option ℕ) (m : Machine) → IsSynced m → IsSynced (start_round q d m).0
unfolding start_round rehydrate_event
start_round-IsSynced q d m s = elim (Bool-cases (m.state.status == round_active)) [
  | inl e ↦ rw (e, start_round) (log_event-IsSynced _ _ m.cards s (λ _. refl))
  | inr e ↦ rw (e, start_round) s
]

consume_chance-IsSynced :
    (r : RoundState) (id : Str) (m : Machine) → IsSynced m → IsSynced (consume_chance r id m)
unfolding consume_chance rehydrate_event
consume_chance-IsSynced r id m s =
    log_event-IsSynced _ _ m.cards s (λ h. rw (h, rehydrate_event) refl)

record_answer-IsSynced :
    (r : RoundState) (a : AnswerState) (m : Machine) → IsSynced m → IsSynced (record_answer r a m)
unfolding record_answer rehydrate_event
record_answer-IsSynced r a m s = log_event-IsSynced _ _ m.cards s (λ _. refl)

use_chance-IsSynced :
    (retry : Bool) (r : RoundState) (id : Str) (m : Machine)
    → IsSynced m
    → IsSynced (use_chance retry r id m)
use_chance-IsSynced true r id m s = consume_chance-IsSynced r id m s
use_chance-IsSynced false r id m s = s

accept_answer-IsSynced :
    (r : RoundState) (retry : Bool) (id answer : Str) (t : ℕ) (sid : Option Str) (m : Machine)
    → IsSynced m
    → IsSynced (accept_answer r retry id answer t sid m).0
unfolding accept_answer
accept_answer-IsSynced r retry id answer t sid m s = elim (Option-cases (refusal r id t m)) [
  | inl e ↦
      rw (e, accept_answer)
        (record_answer-IsSynced r _ (use_chance retry r id m) (use_chance-IsSynced retry r id m s))
  | inr (c, e) ↦ rw (e, accept_answer) s
]

submit_in-IsSynced :
    (r : RoundState) (old : Option AnswerState) (id answer : Str) (t : ℕ) (sid : Option Str)
    (m : Machine)
    → IsSynced m
    → IsSynced (submit_in r old id answer t sid m).0
unfolding submit_in
submit_in-IsSynced r none id answer t sid m s = accept_answer-IsSynced r false id answer t sid m s
submit_in-IsSynced r (some a) id answer t sid m s = elim (Bool-cases (resubmits a sid)) [
  | inl e ↦ rw (e, submit_in) s
  | inr e ↦ elim (Bool-cases (includes m.cards.second_chance id)) [
    | inl f ↦ rw (e, submit_in) (rw (f) (accept_answer-IsSynced r true id answer t sid m s))
    | inr f ↦ rw (e, submit_in) (rw (f) s)
  ]
]

pub submit_answer-IsSynced :
    (id answer : Str) (t : ℕ) (sid : Option Str) (m : Machine)
    → IsSynced m
    → IsSynced (submit_answer id answer t sid m).0
unfolding submit_answer
submit_answer-IsSynced id answer t sid m s = elim (Option-cases m.current_round) [
  | inl e ↦ rw (e, submit_answer) s
  | inr (r, e) ↦ rw (e, submit_answer) (submit_in-IsSynced r (get r.answers id) id answer t sid m s)
]

pub evaluate_round-IsSynced : (m : Machine) → IsSynced m → IsSynced (evaluate_round m).0
unfolding evaluate_round rehydrate_event
evaluate_round-IsSynced m s = elim (Option-cases m.current_round) [
  | inl e ↦ rw (e, evaluate_round) s
  | inr (r, e) ↦ elim (Bool-cases m.eliminated_frozen) [
    | inl f ↦ rw (e, evaluate_round) (rw f s)
    | inr f ↦ rw (e, evaluate_round) (rw f (log_event-IsSynced _ _ m.cards s (λ _. refl)))
  ]
]

pub attach_correct_answer-IsSynced :
    (a : Str) (m : Machine) → IsSynced m → IsSynced (attach_correct_answer a m)
unfolding attach_correct_answer
attach_correct_answer-IsSynced a m s = elim (Option-cases m.current_round) [
  | inl e ↦ rw (e, attach_correct_answer) s
  | inr (r, e) ↦ rw (e, attach_correct_answer) s
]

break_tie-IsSynced : (ids : List Str) (m : Machine) → IsSynced m → IsSynced (break_tie ids m).0
unfolding break_tie rehydrate_event
break_tie-IsSynced [] m s = s
break_tie-IsSynced (id ∷ ids) m s = log_event-IsSynced _ _ m.cards s (λ _. refl)

tie_eliminated-IsSynced :
    (ids : List Str) (m : Machine) → IsSynced m → IsSynced (tie_eliminated ids m).0
unfolding tie_eliminated
tie_eliminated-IsSynced [] m s = s
tie_eliminated-IsSynced (id ∷ ids) m s = break_tie-IsSynced (id ∷ ids) m s

pub determine_winner-IsSynced : (m : Machine) → IsSynced m → IsSynced (determine_winner m).0
unfolding determine_winner
determine_winner-IsSynced m s = by_lists m.state.surviving_player_ids m.state.eliminated_player_ids
  where
    by_lists : (xs ys : List Str) → IsSynced (determine_from xs ys m).0
    by_lists [] ys = tie_eliminated-IsSynced ys m s
    by_lists (x ∷ []) ys = s
    by_lists (x ∷ y ∷ xs) ys = break_tie-IsSynced (x ∷ y ∷ xs) m s

pub finish_match-IsSynced : (m : Machine) → IsSynced m → IsSynced (finish_match m)
unfolding finish_match rehydrate_event
finish_match-IsSynced m s =
    log_event-IsSynced _ _ (determine_winner m).0.cards (determine_winner-IsSynced m s) (λ _. refl)
