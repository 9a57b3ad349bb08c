-- ===== src/Match/Synced/Drafts.antt =====
-- The log and the cards under the topic vote and the players' connections, in
-- packages/game-core/src/match-state-machine.ts.
use the_arena_of.Prelude.{
  list_eq, nat_eq, ℕ, refl, Bool, true, false, List, Option, none, some, inl, inr, Bool-cases,
  Option-cases, ◌==◌,
}
use the_arena_of.Prelude.Dict.{get}
use the_arena_of.Text.{Str}
use the_arena_of.Errors.{Result, ok, err}
use the_arena_of.Match.State.{topic_voting, status_eq, PlayerStatus, Machine}
use the_arena_of.Match.Phase.{transition}
use the_arena_of.Match.Winner.{
  go_offline, disconnect_player, disconnect_status, comes_back, reconnect_player,
}
use the_arena_of.Match.Topics.{
  chosen_topics, reset_draft, tick_unless, open_voting, after_transition, init_topic_voting,
  tick_at, check_time, votes_of, voted_for, vote_refusal, cast_vote, vote_ban_topic,
  resolve_topic_voting,
}
use the_arena_of.Match.Rehydrate.{rehydrate_event}
use the_arena_of.Match.Synced.{IsSynced, log_event-IsSynced}
use the_arena_of.Match.Synced.Rounds.{transition-IsSynced}

go_offline-IsSynced :
    (id : Str) (status : PlayerStatus) (logged : Bool) (m : Machine)
    → IsSynced m
    → IsSynced (go_offline id (status, logged) m)
unfolding go_offline rehydrate_event
go_offline-IsSynced id status true m s = log_event-IsSynced _ _ m.cards s (λ _. refl)
go_offline-IsSynced id status false m s = s

pub disconnect_player-IsSynced :
    (id : Str) (m : Machine) → IsSynced m → IsSynced (disconnect_player id m)
unfolding disconnect_player
disconnect_player-IsSynced id m s = elim (Option-cases (get m.state.players id)) [
  | inl e ↦ rw (e, disconnect_player) s
  | inr (p, e) ↦
      rw (e, disconnect_player)
        (go_offline-IsSynced id (disconnect_status p.status).0 (disconnect_status p.status).1 m s)
]

pub reconnect_player-IsSynced :
    (id : Str) (m : Machine) → IsSynced m → IsSynced (reconnect_player id m)
unfolding reconnect_player rehydrate_event
reconnect_player-IsSynced id m s = elim (Option-cases (get m.state.players id)) [
  | inl e ↦ rw (e, reconnect_player) s
  | inr (p, e) ↦ elim (Bool-cases (comes_back p)) [
    | inl f ↦ rw (e, reconnect_player) (rw f (log_event-IsSynced _ _ m.cards s (λ _. refl)))
    | inr f ↦ rw (e, reconnect_player) (rw f s)
  ]
]

tick_unless-IsSynced : (o : Option ℕ) (m : Machine) → IsSynced m → IsSynced (tick_unless o m)
tick_unless-IsSynced none m s = s
tick_unless-IsSynced (some t) m s = s

after_transition-IsSynced :
    (ts : List Str) (d : ℕ) (m : Machine) (r : Result (Unit {0}))
    → IsSynced m
    → IsSynced (after_transition ts d (m, r)).0
unfolding after_transition open_voting rehydrate_event
after_transition-IsSynced ts d m (ok u) s =
    log_event-IsSynced _ _ (tick_unless m.state.started_at m).cards
      (tick_unless-IsSynced m.state.started_at m s) (λ _. refl)
after_transition-IsSynced ts d m (err e) s = s

pub init_topic_voting-IsSynced :
    (ts : Option (List Str)) (d : Option ℕ) (m : Machine)
    → IsSynced m
    → IsSynced (init_topic_voting ts d m).0
unfolding init_topic_voting
init_topic_voting-IsSynced ts d m s =
    let tried = transition topic_voting (reset_draft (chosen_topics m ts) m) in
    after_transition-IsSynced _ _ tried.0 tried.1
      (transition-IsSynced topic_voting (reset_draft (chosen_topics m ts) m) s)

check_time-IsSynced : (m : Machine) → IsSynced m → IsSynced (check_time m)
unfolding check_time
check_time-IsSynced m s = elim (Bool-cases (m.state.status == topic_voting)) [
  | inl e ↦ rw (e, check_time) (by_deadline m.state.phase_ends_at)
  | inr e ↦ rw (e, check_time) s
]
  where
    by_deadline : (o : Option ℕ) → IsSynced (tick_at o m)
    by_deadline none = s
    by_deadline (some t) = s

cast_vote-IsSynced :
    (id t : Str) (e : Option Str) (m : Machine) → IsSynced m → IsSynced (cast_vote id t e m)
unfolding cast_vote rehydrate_event
cast_vote-IsSynced id t e m s = elim (Bool-cases (voted_for (get (votes_of m) id) t)) [
  | inl f ↦ rw (f, cast_vote) s
  | inr f ↦ rw (f, cast_vote) (log_event-IsSynced _ _ m.cards s (λ _. refl))
]

pub vote_ban_topic-IsSynced :
    (id t : Str) (e : Option Str) (m : Machine) → IsSynced m → IsSynced (vote_ban_topic id t e m).0
unfolding vote_ban_topic
vote_ban_topic-IsSynced id t e m s = elim (Option-cases (vote_refusal id t m)) [
  | inl f ↦
      rw (f, vote_ban_topic) (cast_vote-IsSynced id t e (check_time m) (check_time-IsSynced m s))
  | inr (c, f) ↦ rw (f, vote_ban_topic) (check_time-IsSynced m s)
]

pub resolve_topic_voting-IsSynced :
    (n : ℕ) (m : Machine) → IsSynced m → IsSynced (resolve_topic_voting n m).0
unfolding resolve_topic_voting rehydrate_event
resolve_topic_voting-IsSynced n m s = log_event-IsSynced _ _ m.cards s (λ _. refl)
