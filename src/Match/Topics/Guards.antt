-- ===== src/Match/Topics/Guards.antt =====
-- The guards of a vote, `voteBanTopic` of packages/game-core/src/match-state-machine.ts, and what they say.
use mathlib.Core.Bool.{true≢false}
use the_arena_of.Prelude.{
  sym, subst, ◌≤◌, ◌≢◌, leb, leb→le, includes, ℕ, ◌≡◌, refl, true, false, Option, none, some, inl,
  inr, Bool-cases, ◌==◌, ◌⊎◌, list_eq, nat_eq, arith, ap, ◌∙◌, List,
}
use the_arena_of.Prelude.Dict.{get}
use the_arena_of.Text.{Str}
use the_arena_of.Errors.{ErrorCode, topic_voting_closed, player_not_in_room, invalid_topic}
use the_arena_of.Match.State.{PlayerInfo, PlayerStatus, topic_voting, status_eq, Machine}
use the_arena_of.Match.Log.{now}
use the_arena_of.Match.Round.{player_active, is_active}
use the_arena_of.Match.Topics.{voting_over, is_candidate, vote_refusal, votes_of}

-- The deadline of a vote, if there is one, has passed when the clock is read.
abbrev pub Overdue : Machine → Type 0
Overdue m = (t : ℕ) × (m.state.phase_ends_at ≡ some t) × (t ≤ m.host.clock m.reads)

abbrev pub IsActivePlayer : Machine → Str → Type 0
IsActivePlayer m player_id =
    (p : PlayerInfo) × (get m.state.players player_id ≡ some p) × (p.status ≡ PlayerStatus.active)

abbrev pub IsCandidate : Machine → Str → Type 0
IsCandidate m topic =
    (ts : List Str) × (m.state.candidate_topics ≡ some ts) × (includes ts topic ≡ true)

-- What an accepted vote met, and what it left.
pub record Voted (player_id topic : Str) (m m' : Machine) : Type 0 where
  pub in_phase : m.state.status ≡ topic_voting
  pub in_time : Overdue m → ⊥
  pub is_player : IsActivePlayer m player_id
  pub offered : IsCandidate m topic
  pub counted : get (votes_of m') player_id ≡ some topic
  pub others : (id : Str) → (player_id == id) ≡ false → get (votes_of m') id ≡ get (votes_of m) id

-- Why a vote is refused, with its error code: the guards in their order.
abbrev pub Unvoted : Str → Str → Machine → ErrorCode → Type 0
Unvoted player_id topic m e =
    ((e ≡ topic_voting_closed) × ((m.state.status ≢ topic_voting) ⊎ Overdue m))
    ⊎ ((e ≡ player_not_in_room)
        × (m.state.status ≡ topic_voting)
        × (IsActivePlayer m player_id → ⊥))
    ⊎ ((e ≡ invalid_topic)
        × (m.state.status ≡ topic_voting)
        × IsActivePlayer m player_id
        × (IsCandidate m topic → ⊥))

over-Overdue : (m : Machine) → voting_over m ≡ true → Overdue m
over-Overdue m h = by_deadline m.state.phase_ends_at refl h
  where
    by_deadline :
        (o : Option ℕ)
        → m.state.phase_ends_at ≡ o
        → elim o [ none ↦ false | some t ↦ leb t (now m) ] ≡ true
        → Overdue m
    by_deadline none e h = cc
    by_deadline (some t) e h = (t, e, leb→le t (now m) h)

pub in_time-Overdue : (m : Machine) → voting_over m ≡ false → Overdue m → ⊥
in_time-Overdue m h (t, e, d) =
    let late : leb t (now m) ≡ false =
      subst (λ (o : Option ℕ). elim o [ none ↦ false | some x ↦ leb x (now m) ] ≡ false) e h in
    ground (arith, late, d)

pub active-IsActivePlayer :
    (m : Machine) (id : Str) → player_active (get m.state.players id) ≡ true → IsActivePlayer m id
active-IsActivePlayer m id h = by_player (get m.state.players id) refl h
  where
    by_status : (s : PlayerStatus) → is_active s ≡ true → s ≡ PlayerStatus.active
    by_status PlayerStatus.active h = refl
    by_status PlayerStatus.eliminated h = cc
    by_status PlayerStatus.disconnected h = cc
    by_status PlayerStatus.winner h = cc

    by_player :
        (o : Option PlayerInfo)
        → get m.state.players id ≡ o
        → player_active o ≡ true
        → IsActivePlayer m id
    by_player none e h = cc
    by_player (some p) e h = (p, e, by_status p.status h)

IsActivePlayer-active :
    (m : Machine) (id : Str)
    → player_active (get m.state.players id) ≡ false
    → IsActivePlayer m id
    → ⊥
IsActivePlayer-active m id h (p, e, a) =
    true≢false
      (sym (ap is_active a) ∙ subst (λ (o : Option PlayerInfo). player_active o ≡ false) e h)

pub candidate-IsCandidate :
    (m : Machine) (topic : Str)
    → is_candidate m.state.candidate_topics topic ≡ true
    → IsCandidate m topic
candidate-IsCandidate m topic h = by_list m.state.candidate_topics refl h
  where
    by_list :
        (o : Option (List Str))
        → m.state.candidate_topics ≡ o
        → is_candidate o topic ≡ true
        → IsCandidate m topic
    by_list none e h = cc
    by_list (some ts) e h = (ts, e, h)

IsCandidate-candidate :
    (m : Machine) (topic : Str)
    → is_candidate m.state.candidate_topics topic ≡ false
    → IsCandidate m topic
    → ⊥
IsCandidate-candidate m topic h (ts, e, a) =
    true≢false (sym a ∙ subst (λ (o : Option (List Str)). is_candidate o topic ≡ false) e h)

pub vote_refusal-some :
    (player_id topic : Str) (m : Machine) (e : ErrorCode)
    → vote_refusal player_id topic m ≡ some e
    → Unvoted player_id topic m e
unfolding vote_refusal
vote_refusal-some player_id topic m e h = elim (Bool-cases (m.state.status == topic_voting)) [
  | inr p ↦ inl (
    same (sym (rw (p, vote_refusal) refl) ∙ h),
    inl (λ q. true≢false (sym ((status_eq.beq_iff m.state.status topic_voting).1 q) ∙ p)),
  )
  | inl p ↦
      let phase = (status_eq.beq_iff m.state.status topic_voting).0 p in
      elim (Bool-cases (voting_over m)) [
        | inl o ↦ inl (same (sym (rw (p, o, vote_refusal) refl) ∙ h), inr (over-Overdue m o))
        | inr o ↦ elim (Bool-cases (player_active (get m.state.players player_id))) [
          | inr a ↦ inr (
              inl (
                same (sym (rw (p, o, a, vote_refusal) refl) ∙ h),
                phase,
                IsActivePlayer-active m player_id a,
              ))
          | inl a ↦ elim (Bool-cases (is_candidate m.state.candidate_topics topic)) [
            | inr c ↦ inr (
                inr (
                  same (sym (rw (p, o, a, c, vote_refusal) refl) ∙ h),
                  phase,
                  active-IsActivePlayer m player_id a,
                  IsCandidate-candidate m topic c,
                ))
            | inl c ↦ accepted (sym (rw (p, o, a, c, vote_refusal) refl) ∙ h)
          ]
        ]
      ]
]
  where
    same : {x : ErrorCode} → some x ≡ some e → e ≡ x
    same g = cc

    accepted : Path (Option ErrorCode) none (some e) → Unvoted player_id topic m e
    accepted g = cc

pub vote_refusal-none :
    (player_id topic : Str) (m : Machine)
    → vote_refusal player_id topic m ≡ none
    → ((m.state.status == topic_voting) ≡ true)
      × (voting_over m ≡ false)
      × (player_active (get m.state.players player_id) ≡ true)
      × (is_candidate m.state.candidate_topics topic ≡ true)
unfolding vote_refusal
vote_refusal-none player_id topic m h = ground arith
