-- ===== src/Match/Topics/Votes.antt =====
-- What a vote does, `voteBanTopic` of packages/game-core/src/match-state-machine.ts.

use the_arena_of.Prelude.{
  ℕ, ◌≡◌, refl, true, false, Bool, Option, none, some, inl, inr, Bool-cases, Option-cases, ◌==◌,
  ◌⊎◌, list_eq, nat_eq, ap, ◌∙◌, [],
}
use the_arena_of.Prelude.Dict.{get, set, or_else, get-set_self, get-set_ne}
use the_arena_of.Text.{Str}
use the_arena_of.Errors.{ok, err, ErrorCode, room_error}
use the_arena_of.Match.State.{topic_vote_submitted, topic_voting, status_eq, Machine}
use the_arena_of.Match.Log.{log_event, truthy}
use the_arena_of.Match.Topics.{
  voted_for, vote_refusal, votes_of, cast_vote, tick_at, check_time, vote_ban_topic,
}
use the_arena_of.Match.Topics.Guards.{
  Voted, Unvoted, in_time-Overdue, active-IsActivePlayer, candidate-IsCandidate, vote_refusal-some,
  vote_refusal-none,
}

abbrev Counted : Str → Str → Machine → Machine → Type 0
Counted player_id topic m m' =
    (get (votes_of m') player_id ≡ some topic)
    × ((id : Str) → (player_id == id) ≡ false → get (votes_of m') id ≡ get (votes_of m) id)

cast_vote-Counted :
    (player_id topic : Str) (event_id : Option Str) (m : Machine)
    → Counted player_id topic m (cast_vote player_id topic event_id m)
unfolding cast_vote log_event
cast_vote-Counted player_id topic event_id m =
    by_test (voted_for (get (votes_of m) player_id) topic) (repeated (get (votes_of m) player_id))
  where
    repeated : (o : Option Str) → voted_for o topic ≡ true → o ≡ some topic
    repeated none h = cc
    repeated (some t) h = ap some ((list_eq.beq_iff t topic).0 h)

    by_test :
        (b : Bool)
        → (b ≡ true → get (votes_of m) player_id ≡ some topic)
        → Counted player_id topic m (elim b [
          | true ↦ record m { state = record (m.state) { topic_votes = some (votes_of m) } }
          | false ↦
              log_event
                (topic_vote_submitted m.state.id player_id topic (truthy event_id))
                (record m {
                  state = record (m.state) {
                    topic_votes = some (set (votes_of m) player_id topic);
                  };
                })
        ])
    by_test true h = (h refl, λ id e. refl)
    by_test false h = (
      get-set_self (votes_of m) player_id topic,
      λ id e. get-set_ne (votes_of m) player_id id topic e,
    )

pub check_time-state : (m : Machine) → (check_time m).state ≡ m.state
unfolding check_time tick_at
check_time-state m = elim (Bool-cases (m.state.status == topic_voting)) [
  | inl e ↦ rw (e, check_time) (by_deadline m.state.phase_ends_at)
  | inr e ↦ rw (e, check_time) refl
]
  where
    by_deadline : (o : Option ℕ) → (tick_at o m).state ≡ m.state
    by_deadline none = refl
    by_deadline (some t) = refl

cast-Voted :
    (player_id topic : Str) (event_id : Option Str) (m : Machine)
    → vote_refusal player_id topic m ≡ none
    → Voted player_id topic m (cast_vote player_id topic event_id (check_time m))
cast-Voted player_id topic event_id m e =
    let met = vote_refusal-none player_id topic m e in
    let left = cast_vote-Counted player_id topic event_id (check_time m) in
    record {
      in_phase = (status_eq.beq_iff m.state.status topic_voting).0 met.0;
      in_time = in_time-Overdue m met.1;
      is_player = active-IsActivePlayer m player_id met.2;
      offered = candidate-IsCandidate m topic met.3;
      counted = left.0;
      others =
          λ id h. left.1 id h ∙ ap (λ s. get (or_else s.topic_votes []) id) (check_time-state m);
    }

-- A vote is accepted exactly in the voting phase, before its deadline, by an active player and for a
-- candidate. It then is the player's vote, and the others' stay as they were. A refused vote failed the first of
-- these tests that its error code names, and changes nothing but that the clock may have been read.
pub vote_ban_topic-Voted :
    (player_id topic : Str) (event_id : Option Str) (m : Machine)
    → (((vote_ban_topic player_id topic event_id m).1 ≡ ok true)
        × Voted player_id topic m (vote_ban_topic player_id topic event_id m).0)
      ⊎ ((e : ErrorCode) × Unvoted player_id topic m e
          × (vote_ban_topic player_id topic event_id m ≡ (check_time m, err (room_error e))))
unfolding vote_ban_topic
vote_ban_topic-Voted player_id topic event_id m =
    elim (Option-cases (vote_refusal player_id topic m)) [
      | inl e ↦ inl (
        rw (e, vote_ban_topic) refl,
        rw (e, vote_ban_topic) (cast-Voted player_id topic event_id m e),
      )
      | inr (c, e) ↦ inr (c, vote_refusal-some player_id topic m c e, rw (e, vote_ban_topic) refl)
    ]
