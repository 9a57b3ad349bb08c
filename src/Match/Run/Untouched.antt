-- ===== src/Match/Run/Untouched.antt =====
-- The methods of packages/game-core/src/match-state-machine.ts that leave the players, the survivors, the
-- round and the phase alone.
use the_arena_of.Prelude.Dict.{Dict, get}
use the_arena_of.Match.Winner.{break_tie, tie_eliminated, determine_from, determine_winner}
use the_arena_of.Match.Topics.{
  tick_at, voted_for, votes_of, vote_refusal, cast_vote, check_time, vote_ban_topic,
}
use the_arena_of.Match.State.{
  topic_voting, PlayerInfo, MatchStatus, status_eq, RoundState, ResolvedPayload, Machine,
}
use the_arena_of.Prelude.{
  [], ◌∷◌, none, some, ◌==◌, length, suc, ℕ, ◌≡◌, refl, ◌∙◌, List, Option, inl, inr, Bool-cases,
  Option-cases, nat_beq, includes, list_eq, nat_eq,
}
use the_arena_of.Text.{Str}
use the_arena_of.Errors.{Result, ok, err}
use the_arena_of.Cards.Defs.{CardId, card_eq, CardEffect}
use the_arena_of.Cards.Engine.{SamplingResult, sample_offer}
use the_arena_of.Match.Log.{log_event}
use the_arena_of.Match.CardPlay.{
  hand_of, available_pool, give_offer, offered, pick_offer, pick_card, is_second_chance, apply_play,
  resolved_payload, open_round, checked_play, play_card,
}

-- What a stored match depends on.
abbrev pub Core : Type 0
Core = Dict Str PlayerInfo × List Str × Option RoundState × MatchStatus × Option ℕ × Option ℕ

abbrev pub core : Machine → Core
core m = (
  m.state.players, m.state.surviving_player_ids, m.current_round, m.state.status,
  m.state.round_result_started_at, m.state.phase_ends_at,
)

abbrev pub Untouched : Machine → Machine → Type 0
Untouched m m' = core m' ≡ core m

break_tie-core : (ids : List Str) (m : Machine) → Untouched m (break_tie ids m).0
unfolding break_tie log_event
break_tie-core [] m = refl
break_tie-core (id ∷ ids) m = refl

determine_from-core :
    (survivors eliminated : List Str) (m : Machine)
    → Untouched m (determine_from survivors eliminated m).0
unfolding determine_from tie_eliminated
determine_from-core [] [] m = refl
determine_from-core [] (id ∷ ids) m = break_tie-core (id ∷ ids) m
determine_from-core (id ∷ []) eliminated m = refl
determine_from-core (id ∷ next ∷ ids) eliminated m = break_tie-core (id ∷ next ∷ ids) m

check_time-core : (m : Machine) → Untouched m (check_time m)
unfolding check_time tick_at
check_time-core m = elim (Bool-cases (m.state.status == topic_voting)) [
  | inl e ↦ rw (e, check_time) (by_deadline m.state.phase_ends_at)
  | inr e ↦ rw (e, check_time) refl
]
  where
    by_deadline : (o : Option ℕ) → Untouched m (tick_at o m)
    by_deadline none = refl
    by_deadline (some t) = refl

pub determine_winner-Untouched : (m : Machine) → Untouched m (determine_winner m).0
unfolding determine_winner
determine_winner-Untouched m =
    determine_from-core m.state.surviving_player_ids m.state.eliminated_player_ids m

cast_vote-Untouched : (id t : Str) (e : Option Str) (m : Machine) → Untouched m (cast_vote id t e m)
unfolding cast_vote log_event
cast_vote-Untouched id t e m = elim (Bool-cases (voted_for (get (votes_of m) id) t)) [
  | inl f ↦ rw (f, cast_vote) refl
  | inr f ↦ rw (f, cast_vote) refl
]

pub vote_ban_topic-Untouched :
    (id t : Str) (e : Option Str) (m : Machine) → Untouched m (vote_ban_topic id t e m).0
unfolding vote_ban_topic
vote_ban_topic-Untouched id t e m =
    let ticked = check_time-core m in
    elim (Option-cases (vote_refusal id t m)) [
      | inl f ↦ rw (f, vote_ban_topic) (cast_vote-Untouched id t e (check_time m) ∙ ticked)
      | inr (c, f) ↦ rw (f, vote_ban_topic) ticked
    ]

pub pick_offer-Untouched :
    (id : Str) (n : ℕ) (x : Str) (m : Machine) → Untouched m (pick_offer id n x m).0
unfolding pick_offer offered give_offer log_event
pick_offer-Untouched id n x m = elim (Option-cases (get m.cards.classes id)) [
  | inl e ↦ rw (e, pick_offer) refl
  | inr (c, e) ↦ rw (e, pick_offer) (by_result (sample_offer c x (available_pool m.cards c id)))
]
  where
    by_size : (ids : List CardId) → Untouched m (give_offer id n x ids m).0
    by_size ids = elim (Bool-cases (nat_beq (length ids) 3)) [
      | inl f ↦ rw (f, give_offer) refl
      | inr f ↦ rw (f, give_offer) refl
    ]

    by_result : (r : Result SamplingResult) → Untouched m (offered id n x r m).0
    by_result (ok r) = by_size r.cards
    by_result (err e) = refl

pub pick_card-Untouched :
    (id : Str) (c : CardId) (n : ℕ) (e k : Option Str) (m : Machine)
    → Untouched m (pick_card id c n e k m).0
unfolding pick_card log_event
pick_card-Untouched id c n e k m = elim (Bool-cases (includes (hand_of m.cards id) c)) [
  | inl f ↦ rw (f, pick_card) refl
  | inr f ↦ rw (f, pick_card) refl
]

apply_play-Untouched : (p : ResolvedPayload) (m : Machine) → Untouched m (apply_play p m)
unfolding apply_play log_event
apply_play-Untouched p m = elim (Bool-cases (is_second_chance p.effect)) [
  | inl f ↦ rw (f, apply_play) refl
  | inr f ↦ rw (f, apply_play) refl
]

checked_play-Untouched : (p : ResolvedPayload) (m : Machine) → Untouched m (checked_play p m).0
unfolding checked_play log_event
checked_play-Untouched p m = elim (Bool-cases (nat_beq (suc m.event_seq) p.seq_no)) [
  | inl f ↦ rw (f, checked_play) (apply_play-Untouched p m)
  | inr f ↦ rw (f, checked_play) refl
]

pub play_card-Untouched :
    (id : Str) (c : CardId) (n : ℕ) (f : CardEffect) (ts : List Str) (t : ℕ) (e k : Option Str)
    (m : Machine)
    → Untouched m (play_card id c n f ts t e k m).0
unfolding play_card
play_card-Untouched id c n f ts t e k m = elim (Option-cases (open_round m)) [
  | inl o ↦ rw (o, play_card) refl
  | inr (r, o) ↦
      rw (o, play_card) (checked_play-Untouched (resolved_payload id c n f ts t e k r.round_no m) m)
]
