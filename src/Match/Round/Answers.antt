-- ===== src/Match/Round/Answers.antt =====
-- What `submitAnswer` of packages/game-core/src/match-state-machine.ts does on each of its branches.
use the_arena_of.Prelude.{
  if◌then◌else◌, subst, arith, ◌⊎◌, ◌≤◌, ℕ, ◌≡◌, refl, Bool, true, false, Option, none, some, inl,
  inr, Bool-cases, Option-cases, includes, list_eq, nat_eq,
}
use the_arena_of.Prelude.Dict.{get}
use the_arena_of.Text.{Str}
use the_arena_of.Errors.{
  Failure, Result, ok, err, ErrorCode, room_error, round_not_active, already_answered,
}
use the_arena_of.Match.State.{AnswerState, RoundState, Machine}
use the_arena_of.Match.Log.{log_event}
use the_arena_of.Prelude.Dict.{get-set_self}
use the_arena_of.Match.Round.{
  set, log_event, consume_chance, player_active, is_open, resubmits, refusal, answer_record,
  use_chance, record_answer, accept_answer, submit_in, submit_answer,
}

module _ (id answer : Str) (t : ℕ) (sid : Option Str) (m : Machine) where
  -- A new answer: the player has none yet, or has a second chance.
  abbrev Fresh : RoundState → Bool → Type 0
  Fresh r false = get r.answers id ≡ none
  Fresh r true = includes m.cards.second_chance id ≡ true

  -- The case rule: a property of every outcome holds of the call.
  pub submit_cases {ℓ} :
      (P : Machine × Result AnswerState → Type ℓ)
      → (m.current_round ≡ none → P (m, err (room_error round_not_active)))
      → ((r : RoundState) (a : AnswerState)
          → m.current_round ≡ some r
          → get r.answers id ≡ some a
          → resubmits a sid ≡ true
          → P (m, ok a))
      → ((r : RoundState) (a : AnswerState)
          → m.current_round ≡ some r
          → get r.answers id ≡ some a
          → resubmits a sid ≡ false
          → includes m.cards.second_chance id ≡ false
          → P (m, err (room_error already_answered)))
      → ((r : RoundState) (retry : Bool) (e : ErrorCode)
          → m.current_round ≡ some r
          → refusal r id t m ≡ some e
          → Fresh r retry
          → P (m, err (room_error e)))
      → ((r : RoundState) (retry : Bool)
          → m.current_round ≡ some r
          → refusal r id t m ≡ none
          → Fresh r retry
          → let a = answer_record m r id answer t sid in
            P (record_answer r a (use_chance retry r id m), ok a))
      → P (submit_answer id answer t sid m)
  unfolding submit_answer
  submit_cases P closed again twice refused accepted = elim (Option-cases m.current_round) [
    | inl e ↦ rw (e, submit_answer) (closed e)
    | inr (r, e) ↦ rw (e, submit_answer) (by_old r e (get r.answers id) refl)
  ]
    where
      by_guard :
          (r : RoundState) (retry : Bool)
          → m.current_round ≡ some r
          → Fresh r retry
          → P (accept_answer r retry id answer t sid m)
      by_guard r retry e fresh = elim (Option-cases (refusal r id t m)) [
        | inl f ↦ rw (f, accept_answer) (accepted r retry e f fresh)
        | inr (c, f) ↦ rw (f, accept_answer) (refused r retry c e f fresh)
      ]

      by_old :
          (r : RoundState)
          → m.current_round ≡ some r
          → (old : Option AnswerState) → get r.answers id ≡ old
          → P (submit_in r old id answer t sid m)
      by_old r e none f = by_guard r false e f
      by_old r e (some a) f = elim (Bool-cases (resubmits a sid)) [
        | inl g ↦ rw (g, submit_in) (again r a e f g)
        | inr g ↦ elim (Bool-cases (includes m.cards.second_chance id)) [
          | inl h ↦ rw (g, submit_in) (rw h (by_guard r true e h))
          | inr h ↦ rw (g, submit_in) (rw h (twice r a e f g h))
        ]
      ]

  -- A recorded answer is what the round holds for its player.
  abbrev Recorded : Machine × Result AnswerState → Type 0
  Recorded (m', ok a) = (r : RoundState) × (m'.current_round ≡ some r) × (get r.answers id ≡ some a)
  Recorded (m', err e) = Unit

  submit_answer-Recorded : Recorded (submit_answer id answer t sid m)
  unfolding record_answer consume_chance log_event
  submit_answer-Recorded =
      submit_cases Recorded (λ e. tt) (λ r a e f g. (r, e, f)) (λ r a e f g h. tt)
        (λ r b c e f g. tt)
        λ r retry e f fresh. recorded r (answer_record m r id answer t sid) retry
    where
      recorded :
          (r : RoundState) (a : AnswerState) (retry : Bool)
          → (r' : RoundState) × ((record_answer r a (use_chance retry r id m)).current_round
              ≡ some r')
            × (get r'.answers a.player_id ≡ some a)
      recorded r a true = (
        record r { answers = set r.answers a.player_id a },
        refl,
        get-set_self r.answers a.player_id a,
      )
      recorded r a false = (
        record r { answers = set r.answers a.player_id a },
        refl,
        get-set_self r.answers a.player_id a,
      )

  -- A refused submission changes nothing at all.
  pub submit_answer-refused :
      (e : Failure)
      → (submit_answer id answer t sid m).1 ≡ err e
      → (submit_answer id answer t sid m).0 ≡ m
  submit_answer-refused e =
      submit_cases (λ (p : Machine × Result AnswerState). p.1 ≡ err e → p.0 ≡ m) (λ _ _. refl)
        (λ r a _ _ _ h. cc) (λ r a _ _ _ _ _. refl) (λ r b c _ _ _ _. refl) (λ r b _ _ _ h. cc)

  abbrev Accepted : RoundState → AnswerState → Machine → Type 0
  Accepted r a m' =
      (is_open r.status ≡ true)
      × (t ≤ r.ends_at)
      × (player_active (get m.state.players id) ≡ true)
      × (a ≡ answer_record m r id answer t sid)
      × (m'.current_round ≡ some (record r { answers = set r.answers id a }))

  refusal-none :
      (r : RoundState)
      → refusal r id t m ≡ none
      → (is_open r.status ≡ true)
        × (t ≤ r.ends_at)
        × (player_active (get m.state.players id) ≡ true)
  unfolding refusal
  refusal-none r h = ground arith

  -- The outcome of an accepted answer, whether or not a second chance was used.
  Accepted-record :
      (r : RoundState) (retry : Bool)
      → refusal r id t m ≡ none
      → let a = answer_record m r id answer t sid in
        Accepted r a (record_answer r a (use_chance retry r id m))
  unfolding record_answer consume_chance log_event
  Accepted-record r true h = let g = refusal-none r h in (g.0, g.1, g.2, refl, refl)
  Accepted-record r false h = let g = refusal-none r h in (g.0, g.1, g.2, refl, refl)

  abbrev pub Returned : Machine × Result AnswerState → Type 0
  Returned (m', ok a) =
      (r : RoundState) × (m.current_round ≡ some r)
      × (((get r.answers id ≡ some a) × (resubmits a sid ≡ true) × (m' ≡ m))
          ⊎ (((old : AnswerState)
                → get r.answers id ≡ some old
                → includes m.cards.second_chance id ≡ true)
              × Accepted r a m'))
  Returned (m', err e) = m' ≡ m

  -- A submission that throws leaves the machine as it was. One that returns either repeats the
  -- recorded answer's submission id and changes nothing, or it is on time, in an open round, by an
  -- active player who has no answer yet or holds a second chance, and its record is stored.
  pub submit_answer-Returned : Returned (submit_answer id answer t sid m)
  submit_answer-Returned =
      submit_cases Returned (λ e. refl) (λ r a e f g. (r, e, inl (f, g, refl)))
        (λ r a e f g h. refl) (λ r b c e f g. refl)
        λ r retry e f fresh. (r, e, inr (only_with_chance r retry fresh, Accepted-record r retry f))
    where
      only_with_chance :
          (r : RoundState) (retry : Bool)
          → Fresh r retry
          → (old : AnswerState) → get r.answers id ≡ some old
          → includes m.cards.second_chance id ≡ true
      only_with_chance r true fresh old h = fresh
      only_with_chance r false fresh old h = cc

-- A player who has answered: what any further submission gives.
submit_answer-again :
    (m : Machine) (r : RoundState) (a : AnswerState) (id answer : Str) (t : ℕ) (sid : Option Str)
    → m.current_round ≡ some r
    → get r.answers id ≡ some a
    → includes m.cards.second_chance id ≡ false
    → submit_answer id answer t sid m
      ≡ (m, if resubmits a sid then ok a else err (room_error already_answered))
submit_answer-again m r a id answer t sid e f h =
    submit_cases id answer t sid m
      (λ p. p ≡ (m, if resubmits a sid then ok a else err (room_error already_answered))) (λ p. cc)
      (λ s b p q g. kept b (answered s b p q) g) (λ s b p q g k. refused b (answered s b p q) g)
      (λ s retry c p q fresh. stale s retry p fresh) λ s retry p q fresh. stale s retry p fresh
  where
    answered :
        (s : RoundState) (b : AnswerState)
        → m.current_round ≡ some s
        → get s.answers id ≡ some b
        → a ≡ b
    answered s b p q = let r≡s : r ≡ s = cc in cc

    kept :
        (b : AnswerState)
        → a ≡ b
        → resubmits b sid ≡ true
        → Path
            (Machine × Result AnswerState)
            (m, ok b)
            (m, if resubmits a sid then ok a else err (room_error already_answered))
    kept b p g = rw (p, g)

    refused :
        (b : AnswerState)
        → a ≡ b
        → resubmits b sid ≡ false
        → Path
            (Machine × Result AnswerState)
            (m, err (room_error already_answered))
            (m, if resubmits a sid then ok a else err (room_error already_answered))
    refused b p g = rw (p, g)

    stale :
        {Z : Type 0} (s : RoundState) (retry : Bool)
        → m.current_round ≡ some s
        → Fresh id answer t sid m s retry
        → Z
    stale s true p fresh = cc
    stale s false p fresh = let r≡s : r ≡ s = cc in cc

-- Once a submission has returned the record of an answer and the player holds no second chance, any
-- further submission by that player changes nothing, and it returns that same record where it
-- repeats its submission id and is refused as ALREADY_ANSWERED where it does not.
pub answer_once :
    (id answer : Str) (t : ℕ) (sid : Option Str) (m : Machine) (a : AnswerState)
    → (submit_answer id answer t sid m).1 ≡ ok a
    → includes ((submit_answer id answer t sid m).0).cards.second_chance id ≡ false
    → (answer' : Str) (t' : ℕ) (sid' : Option Str)
    → submit_answer id answer' t' sid' (submit_answer id answer t sid m).0 ≡ (
      (submit_answer id answer t sid m).0,
      if resubmits a sid' then ok a else err (room_error already_answered),
    )
answer_once id answer t sid m a h chance answer' t' sid' =
    let (r, e, f) =
      subst (λ x. Recorded id answer t sid m ((submit_answer id answer t sid m).0, x)) h
        (submit_answer-Recorded id answer t sid m) in
    submit_answer-again _ r a id answer' t' sid' e f chance
