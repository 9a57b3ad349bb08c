-- ===== src/Match/Codec/Storability.antt =====
-- A match of packages/game-core/src/match-state-machine.ts is storable after any calls: the phases, the end of
-- a match, players who come and go, and the start of voting.
use the_arena_of.Prelude.{
  ℕ, ◌≢◌, List, [], ◌∷◌, Option, none, some, inl, inr, Bool, true, false, map, Bool-cases,
  Option-cases, list_eq, nat_eq, Distinct,
}
use the_arena_of.Prelude.Dict.{Dict, get, set}
use the_arena_of.Text.{Str}
use the_arena_of.Cards.Defs.{card_eq}
use the_arena_of.Match.State.{
  MatchStatus, created, topic_voting, countdown, round_active, round_evaluating, round_result,
  finished, state_transition, status_eq, Host, PlayerInfo, PlayerStatus, RoundState, Machine,
}
use the_arena_of.Match.Log.{log_event, new_machine, players_map}
use the_arena_of.Match.Phase.{can_transition, enter, set_status, transition}
use the_arena_of.Match.Winner.{
  crown, promote, determine_winner, finish_match, go_offline, disconnect_status, disconnect_player,
  comes_back, rejoin, reconnect_player,
}
use the_arena_of.Match.Topics.{
  chosen_topics, reset_draft, init_topic_voting, resolve_topic_voting, vote_ban_topic,
}
use the_arena_of.Match.CardPlay.{class_assignment, pick_offer, pick_card, play_card}
use the_arena_of.Match.Run.{
  Command, transits, starts_round, submits, evaluates, attaches, determines, finishes, disconnects,
  reconnects, opens_voting, votes, closes_voting, assigns_classes, offers, picks, plays, step, run,
}
use the_arena_of.Match.Run.Untouched.{
  determine_winner-Untouched, vote_ban_topic-Untouched, pick_offer-Untouched, pick_card-Untouched,
  play_card-Untouched,
}
use the_arena_of.Match.Codec.Maps.{Keyed, modify-Keyed, set-Keyed}
use the_arena_of.Match.Codec.Kept.{
  KeptAt, IsStorable, Untouched-IsStorable, evaluate_round-IsStorable,
  attach_correct_answer-IsStorable, submit_answer-IsStorable, start_round-IsStorable,
}

-- Outside an active round the deadline is of no account.
KeptAt-other :
    (s s' : MatchStatus) (ends ends' : Option ℕ) (round : Option RoundState)
    → s' ≢ round_active
    → KeptAt s ends round
    → KeptAt s' ends' round
KeptAt-other s s' ends ends' none f h = tt
KeptAt-other s s' ends ends' (some r) f h = (h.0, h.1, h.2, h.3, λ e. absurd (f e))

enter-IsStorable :
    (to : MatchStatus) (m : Machine) → IsStorable m → IsStorable (enter to (set_status to m))
unfolding enter
enter-IsStorable topic_voting m h = (h.0, h.1, KeptAt-other _ _ _ _ m.current_round (λ e. cc) h.2)
enter-IsStorable countdown m h = (h.0, h.1, KeptAt-other _ _ _ _ m.current_round (λ e. cc) h.2)
enter-IsStorable round_result m h = (h.0, h.1, KeptAt-other _ _ _ _ m.current_round (λ e. cc) h.2)
enter-IsStorable finished m h = (h.0, h.1, KeptAt-other _ _ _ _ m.current_round (λ e. cc) h.2)
enter-IsStorable round_evaluating m h =
    (h.0, h.1, KeptAt-other _ _ _ _ m.current_round (λ e. cc) h.2)
enter-IsStorable created m h = (h.0, h.1, KeptAt-other _ _ _ _ m.current_round (λ e. cc) h.2)
enter-IsStorable round_active m h = (h.0, h.1, tt)

transition-IsStorable :
    (to : MatchStatus) (m : Machine) → IsStorable m → IsStorable (transition to m).0
unfolding transition log_event
transition-IsStorable to m h = elim (Bool-cases (can_transition to m)) [
  | inl e ↦
      rw (e, transition) (enter-IsStorable to (log_event (state_transition m.state.status to) m) h)
  | inr e ↦ rw (e, transition) h
]

finish_match-IsStorable : (m : Machine) → IsStorable m → IsStorable (finish_match m)
unfolding finish_match log_event
finish_match-IsStorable m h = (promoted (determine_winner m).1, kept.1, kept.2)
  where
    kept : IsStorable (determine_winner m).0
    kept = Untouched-IsStorable m (determine_winner m).0 h (determine_winner-Untouched m)

    promoted : (o : Option Str) → Keyed (promote o (determine_winner m).0.state.players)
    promoted none = kept.0
    promoted (some id) = modify-Keyed (determine_winner m).0.state.players id crown kept.0

go_offline-IsStorable :
    (id : Str) (s : PlayerStatus × Bool) (m : Machine)
    → IsStorable m
    → IsStorable (go_offline id s m)
unfolding go_offline log_event
go_offline-IsStorable id (s, true) m h = (modify-Keyed m.state.players id _ h.0, h.1, h.2)
go_offline-IsStorable id (s, false) m h = (modify-Keyed m.state.players id _ h.0, h.1, h.2)

disconnect_player-IsStorable :
    (id : Str) (m : Machine) → IsStorable m → IsStorable (disconnect_player id m)
unfolding disconnect_player
disconnect_player-IsStorable id m h = elim (Option-cases (get m.state.players id)) [
  | inl e ↦ rw (e, disconnect_player) h
  | inr (p, e) ↦
      rw (e, disconnect_player) (go_offline-IsStorable id (disconnect_status p.status) m h)
]

reconnect_player-IsStorable :
    (id : Str) (m : Machine) → IsStorable m → IsStorable (reconnect_player id m)
unfolding reconnect_player log_event
reconnect_player-IsStorable id m h = elim (Option-cases (get m.state.players id)) [
  | inl e ↦ rw (e, reconnect_player) h
  | inr (p, e) ↦ elim (Bool-cases (comes_back p)) [
    | inl f ↦ rw (e, reconnect_player) (rw f (modify-Keyed m.state.players id rejoin h.0, h.1, h.2))
    | inr f ↦ rw (e, reconnect_player) (rw f h)
  ]
]

init_topic_voting-IsStorable :
    (ts : Option (List Str)) (d : Option ℕ) (m : Machine)
    → IsStorable m
    → IsStorable (init_topic_voting ts d m).0
unfolding init_topic_voting transition enter log_event
init_topic_voting-IsStorable ts d m h =
    elim (Bool-cases (can_transition topic_voting (reset_draft (chosen_topics m ts) m))) [
      | inl e ↦
          rw (e, init_topic_voting) (h.0, h.1, KeptAt-other _ _ _ _ m.current_round (λ e. cc) h.2)
      | inr e ↦ rw (e, init_topic_voting) h
    ]

step-IsStorable : (c : Command) (m : Machine) → IsStorable m → IsStorable (step c m)
unfolding step resolve_topic_voting class_assignment log_event
step-IsStorable (transits to) m h = transition-IsStorable to m h
step-IsStorable (starts_round q d) m h = start_round-IsStorable q d m h
step-IsStorable (submits id a t s) m h = submit_answer-IsStorable id a t s m h
step-IsStorable evaluates m h = evaluate_round-IsStorable m h
step-IsStorable (attaches a) m h = attach_correct_answer-IsStorable a m h
step-IsStorable determines m h =
    Untouched-IsStorable m (determine_winner m).0 h (determine_winner-Untouched m)
step-IsStorable finishes m h = finish_match-IsStorable m h
step-IsStorable (disconnects id) m h = disconnect_player-IsStorable id m h
step-IsStorable (reconnects id) m h = reconnect_player-IsStorable id m h
step-IsStorable (opens_voting ts d) m h = init_topic_voting-IsStorable ts d m h
step-IsStorable (votes id t e) m h =
    Untouched-IsStorable m (vote_ban_topic id t e m).0 h (vote_ban_topic-Untouched id t e m)
step-IsStorable (closes_voting n) m h = h
step-IsStorable (assigns_classes ids x) m h = h
step-IsStorable (offers id n x) m h =
    Untouched-IsStorable m (pick_offer id n x m).0 h (pick_offer-Untouched id n x m)
step-IsStorable (picks id c n e k) m h =
    Untouched-IsStorable m (pick_card id c n e k m).0 h (pick_card-Untouched id c n e k m)
step-IsStorable (plays id c n f ts t e k) m h =
    Untouched-IsStorable m (play_card id c n f ts t e k m).0 h
      (play_card-Untouched id c n f ts t e k m)

run-IsStorable : (cs : List Command) (m : Machine) → IsStorable m → IsStorable (run cs m)
unfolding run
run-IsStorable [] m h = h
run-IsStorable (c ∷ cs) m h = run-IsStorable cs (step c m) (step-IsStorable c m h)

players_map-Keyed :
    (known : Dict Str PlayerInfo) (players : List PlayerInfo)
    → Keyed known
    → Keyed (players_map known players)
unfolding players_map
players_map-Keyed known [] h = h
players_map-Keyed known (p ∷ players) h =
    players_map-Keyed (set known p.id p) players (set-Keyed known p.id p h)

-- After any calls on a new match of distinct players: its players are under distinct keys, its survivors
-- are distinct, and its round, if it has one, can be stored.
pub run_new-IsStorable :
    (host : Host) (id room : Str) (players : List PlayerInfo) (cs : List Command)
    → Distinct (map (λ (p : PlayerInfo). p.id) players)
    → IsStorable (run cs (new_machine host id room players))
unfolding new_machine
run_new-IsStorable host id room players cs h =
    run-IsStorable cs (new_machine host id room players) (players_map-Keyed [] players tt, h, tt)
