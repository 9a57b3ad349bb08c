-- ===== src/Match/Run/Stays.antt =====
-- The methods of packages/game-core/src/match-state-machine.ts and the phase of a match: those that
-- leave it, its start and its deadline alone.
use the_arena_of.Match.Run.Untouched.{Core, Untouched, determine_winner-Untouched}
use the_arena_of.Prelude.{
  ℕ, ◌≡◌, refl, ap, Bool, true, false, Option, inl, inr, Bool-cases, Option-cases, list_eq, nat_eq,
}
use the_arena_of.Prelude.Dict.{get}
use the_arena_of.Text.{Str}
use the_arena_of.Cards.Defs.{card_eq}
use the_arena_of.Match.State.{MatchState, MatchStatus, status_eq, PlayerStatus, RoundState, Machine}
use the_arena_of.Match.Log.{log_event}
use the_arena_of.Match.Round.{
  submit_answer, record_answer, consume_chance, answer_record, use_chance,
}
use the_arena_of.Match.Round.Answers.{submit_cases}
use the_arena_of.Match.Evaluate.{evaluate_round, attach_correct_answer}
use the_arena_of.Match.Winner.{
  determine_winner, finish_match, go_offline, disconnect_status, disconnect_player, comes_back,
  reconnect_player,
}

-- The phase of a match, the start of its result phase, and its deadline.
abbrev pub phase : MatchState → MatchStatus × Option ℕ × Option ℕ
phase s = (s.status, s.round_result_started_at, s.phase_ends_at)

-- The phase and its times stay.
abbrev pub Stays : Machine → Machine → Type 0
Stays m m' = phase m'.state ≡ phase m.state

pub Untouched-Stays : (m m' : Machine) → Untouched m m' → Stays m m'
Untouched-Stays m m' h = ap (λ (c : Core). (c.3, c.4, c.5)) h

pub submit_answer-Stays :
    (id a : Str) (t : ℕ) (s : Option Str) (m : Machine) → Stays m (submit_answer id a t s m).0
unfolding record_answer consume_chance log_event
submit_answer-Stays id a t s m =
    submit_cases id a t s m (λ p. Stays m p.0) (λ _. refl) (λ _ _ _ _ _. refl) (λ _ _ _ _ _ _. refl)
      (λ _ _ _ _ _ _. refl) (λ r retry _ _ _. by_retry r retry)
  where
    by_retry :
        (r : RoundState) (retry : Bool)
        → Stays m (record_answer r (answer_record m r id a t s) (use_chance retry r id m))
    by_retry r true = refl
    by_retry r false = refl

pub evaluate_round-Stays : (m : Machine) → Stays m (evaluate_round m).0
unfolding evaluate_round log_event
evaluate_round-Stays m = elim (Option-cases m.current_round) [
  | inl e ↦ rw (e, evaluate_round) refl
  | inr (r, e) ↦ elim (Bool-cases m.eliminated_frozen) [
    | inl f ↦ rw (e, evaluate_round) (rw f refl)
    | inr f ↦ rw (e, evaluate_round) (rw f refl)
  ]
]

pub attach_correct_answer-Stays : (a : Str) (m : Machine) → Stays m (attach_correct_answer a m)
unfolding attach_correct_answer
attach_correct_answer-Stays a m = elim (Option-cases m.current_round) [
  | inl e ↦ rw (e, attach_correct_answer) refl
  | inr (r, e) ↦ rw (e, attach_correct_answer) refl
]

pub finish_match-Stays : (m : Machine) → Stays m (finish_match m)
unfolding finish_match log_event
finish_match-Stays m = Untouched-Stays m (determine_winner m).0 (determine_winner-Untouched m)

go_offline-Stays : (id : Str) (s : PlayerStatus × Bool) (m : Machine) → Stays m (go_offline id s m)
unfolding go_offline log_event
go_offline-Stays id (s, true) m = refl
go_offline-Stays id (s, false) m = refl

pub disconnect_player-Stays : (id : Str) (m : Machine) → Stays m (disconnect_player id m)
unfolding disconnect_player
disconnect_player-Stays id m = elim (Option-cases (get m.state.players id)) [
  | inl e ↦ rw (e, disconnect_player) refl
  | inr (p, e) ↦ rw (e, disconnect_player) (go_offline-Stays id (disconnect_status p.status) m)
]

pub reconnect_player-Stays : (id : Str) (m : Machine) → Stays m (reconnect_player id m)
unfolding reconnect_player log_event
reconnect_player-Stays id m = elim (Option-cases (get m.state.players id)) [
  | inl e ↦ rw (e, reconnect_player) refl
  | inr (p, e) ↦ elim (Bool-cases (comes_back p)) [
    | inl f ↦ rw (e, reconnect_player) (rw f refl)
    | inr f ↦ rw (e, reconnect_player) (rw f refl)
  ]
]
