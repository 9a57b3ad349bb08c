-- ===== src/Match/Codec/Kept.antt =====
-- What makes a match storable, and the methods of packages/game-core/src/match-state-machine.ts that keep it so.
use the_arena_of.Prelude.{
  ℕ, ◌≡◌, refl, sym, subst, ◌≤◌, ◌+◌, List, [], ◌∷◌, Option, none, some, inl, inr, Bool, true,
  false, Bool-cases, Option-cases, ◌==◌, list_eq, nat_eq, includes, Distinct, All, keep_if, arith,
  not, list_beq_iff,
}
use the_arena_of.Prelude.Dict.{Dict, get, set, or_else}
use the_arena_of.Text.{Str}
use the_arena_of.Match.State.{
  MatchStatus, round_active, status_eq, PlayerInfo, AnswerState, RoundStatus, RoundState,
  StartingPlayers, listed, unavailable, missing, Machine,
}
use the_arena_of.Match.Log.{now, log_event}
use the_arena_of.Match.Phase.{round_duration_ms}
use the_arena_of.Match.Round.{
  Question, start_round, submit_answer, record_answer, consume_chance, answer_record, use_chance,
}
use the_arena_of.Match.Round.Answers.{submit_cases}
use the_arena_of.Match.Evaluate.{
  starting_list, eliminate, reward, settle_player, settle_players, evaluate_round, attach_to,
  attach_correct_answer,
}
use the_arena_of.Rules.Elimination.{eliminations_for_round}
use the_arena_of.Match.Run.Untouched.{Core, core, Untouched}
use the_arena_of.Match.Codec.Maps.{Keyed, modify-Keyed, set-Keyed, set-All}
use the_arena_of.Match.Codec.Fields.{Judged, Starters}

-- The current round, if there is one, can be stored in a match of this status and deadline.
abbrev pub KeptAt : MatchStatus → Option ℕ → Option RoundState → Type 0
KeptAt status ends none = Unit
KeptAt status ends (some r) =
    Keyed r.answers
    × All Judged r.answers
    × (r.started_at ≤ r.ends_at)
    × Starters r.starting_players
    × (status ≡ round_active → ends ≡ some r.ends_at)

abbrev pub KeptCore : Core → Type 0
KeptCore c = Keyed c.0 × Distinct c.1 × KeptAt c.3 c.5 c.2

-- The players are under distinct keys, the survivors are distinct, and the round can be stored.
abbrev pub IsStorable : Machine → Type 0
IsStorable m = KeptCore (core m)

pub Untouched-IsStorable : (m m' : Machine) → IsStorable m → Untouched m m' → IsStorable m'
Untouched-IsStorable m m' h e = subst KeptCore (sym e) h

-- The entries that pass a test are distinct when all are.
excludes-keep :
    (p : Str → Bool) (xs : List Str) (x : Str)
    → includes xs x ≡ false
    → includes (keep_if p xs) x ≡ false
excludes-keep p [] x h = refl
excludes-keep p (y ∷ ys) x h = elim (Bool-cases (p y)) [
  | inl e ↦ rw e (ground (arith, h, excludes-keep p ys x))
  | inr e ↦ rw e (excludes-keep p ys x (ground (arith, h)))
]

Distinct-keep_if : (p : Str → Bool) (xs : List Str) → Distinct xs → Distinct (keep_if p xs)
Distinct-keep_if p [] h = tt
Distinct-keep_if p (x ∷ xs) h = elim (Bool-cases (p x)) [
  | inl e ↦ rw e (excludes-keep p xs x h.0, Distinct-keep_if p xs h.1)
  | inr e ↦ rw e (Distinct-keep_if p xs h.1)
]

settle_player-Keyed :
    (r : RoundState) (out : List Str) (id : Str) (players : Dict Str PlayerInfo)
    → Keyed players
    → Keyed (settle_player r out id players)
unfolding settle_player
settle_player-Keyed r out id players h = elim (Bool-cases (includes out id)) [
  | inl e ↦ rw (e, settle_player) (modify-Keyed players id eliminate h)
  | inr e ↦ elim (Option-cases (get r.answers id)) [
    | inl f ↦ rw (e, settle_player) (rw f h)
    | inr (a, f) ↦ rw (e, settle_player) (rw f (modify-Keyed players id (reward a) h))
  ]
]

settle_players-Keyed :
    (r : RoundState) (out ids : List Str) (players : Dict Str PlayerInfo)
    → Keyed players
    → Keyed (settle_players r out ids players)
unfolding settle_players
settle_players-Keyed r out [] players h = h
settle_players-Keyed r out (id ∷ ids) players h =
    settle_players-Keyed r out ids (settle_player r out id players)
      (settle_player-Keyed r out id players h)

starting-Distinct :
    (p : StartingPlayers) (ids : List Str)
    → Starters p
    → Distinct ids
    → Distinct (starting_list p ids)
starting-Distinct (listed xs) ids h d = h
starting-Distinct unavailable ids h d = d
starting-Distinct missing ids h d = d

-- The round of a storable match.
pub round-KeptAt :
    (m : Machine) (r : RoundState)
    → IsStorable m
    → m.current_round ≡ some r
    → KeptAt m.state.status m.state.phase_ends_at (some r)
round-KeptAt m r h e = subst (KeptAt m.state.status m.state.phase_ends_at) e h.2

pub evaluate_round-IsStorable : (m : Machine) → IsStorable m → IsStorable (evaluate_round m).0
unfolding evaluate_round log_event
evaluate_round-IsStorable m h = elim (Option-cases m.current_round) [
  | inl e ↦ rw (e, evaluate_round) h
  | inr (r, e) ↦
      let kept = round-KeptAt m r h e in
      let starting = starting_list r.starting_players m.state.surviving_player_ids in
      let out = eliminations_for_round m.host.locale r starting in
      let players = settle_players-Keyed r out starting m.state.players h.0 in
      let alive =
        Distinct-keep_if (λ id. not (includes out id)) starting
          (starting-Distinct r.starting_players m.state.surviving_player_ids kept.3 h.1) in
      elim (Bool-cases m.eliminated_frozen) [
        | inl f ↦ rw (e, evaluate_round) (rw f (players, alive, kept))
        | inr f ↦ rw (e, evaluate_round) (rw f (players, alive, kept))
      ]
]

attach_to-KeptAt :
    (s : MatchStatus) (ends : Option ℕ) (r : RoundState) (status : RoundStatus) (answer : Str)
    → KeptAt s ends (some r)
    → KeptAt s ends (some (attach_to r status answer))
unfolding attach_to
attach_to-KeptAt s ends r RoundStatus.active answer h = h
attach_to-KeptAt s ends r RoundStatus.pending answer h = h
attach_to-KeptAt s ends r RoundStatus.evaluating answer h = h
attach_to-KeptAt s ends r RoundStatus.completed answer h = h

pub attach_correct_answer-IsStorable :
    (answer : Str) (m : Machine) → IsStorable m → IsStorable (attach_correct_answer answer m)
unfolding attach_correct_answer
attach_correct_answer-IsStorable answer m h = elim (Option-cases m.current_round) [
  | inl e ↦ rw (e, attach_correct_answer) h
  | inr (r, e) ↦
      rw (e, attach_correct_answer)
        (
          h.0,
          h.1,
          attach_to-KeptAt m.state.status m.state.phase_ends_at r r.status answer
              (round-KeptAt m r h e),
        )
]

-- An answer of the player with that identifier, judged, goes into the round.
record_answer-IsStorable :
    (m : Machine) (r : RoundState) (retry : Bool) (id answer : Str) (t : ℕ) (sid : Option Str)
    → IsStorable m
    → m.current_round ≡ some r
    → IsStorable (record_answer r (answer_record m r id answer t sid) (use_chance retry r id m))
unfolding record_answer consume_chance log_event
record_answer-IsStorable m r retry id answer t sid h e = by_retry retry
  where
    kept : KeptAt m.state.status m.state.phase_ends_at (some r)
    kept = round-KeptAt m r h e

    a : AnswerState
    a = answer_record m r id answer t sid

    stored :
        KeptAt m.state.status m.state.phase_ends_at
          (some (record r { answers = set r.answers id a }))
    stored = (
      set-Keyed r.answers id a kept.0,
      set-All Judged r.answers id a kept.1 (λ j f. ((list_beq_iff j id).0 f, (_, refl))),
      kept.2,
      kept.3,
      kept.4,
    )

    by_retry : (b : Bool) → IsStorable (record_answer r a (use_chance b r id m))
    by_retry true = (h.0, h.1, stored)
    by_retry false = (h.0, h.1, stored)

pub submit_answer-IsStorable :
    (id a : Str) (t : ℕ) (s : Option Str) (m : Machine)
    → IsStorable m
    → IsStorable (submit_answer id a t s m).0
submit_answer-IsStorable id a t s m h =
    submit_cases id a t s m (λ p. IsStorable p.0) (λ _. h) (λ _ _ _ _ _. h) (λ _ _ _ _ _ _. h)
      (λ _ _ _ _ _ _. h) (λ r retry e _ _. record_answer-IsStorable m r retry id a t s h e)

pub start_round-IsStorable :
    (q : Question) (d : Option ℕ) (m : Machine) → IsStorable m → IsStorable (start_round q d m).0
unfolding start_round log_event
start_round-IsStorable q d m h = elim (Bool-cases (m.state.status == round_active)) [
  | inl e ↦
      rw (e, start_round)
        (h.0, h.1, (tt, tt, later (now m) (or_else d round_duration_ms), h.1, λ _. refl))
  | inr e ↦ rw (e, start_round) h
]
  where
    later : (a b : ℕ) → a ≤ a + b
    later a b = omega arith
