-- ===== src/Match/Log.antt =====
-- packages/game-core/src/match-state-machine.ts: the constructor, the event log and its readers.
use the_arena_of.Prelude.{
  false, ℕ, suc, List, [], ◌∷◌, ◌++◌, Option, none, some, map, if◌then◌else◌, ltb, keep_if, list_eq,
  nat_eq,
}
use the_arena_of.Prelude.Dict.{Dict, set}
use the_arena_of.Text.{Str, lit, decimal, is_empty}
use the_arena_of.Match.State.{created, PlayerInfo, Payload, Event, Host, Machine, empty_cards}

-- `new Map(players.map((p) => [p.id, p]))`.
unfoldable pub players_map : Dict Str PlayerInfo → List PlayerInfo → Dict Str PlayerInfo
unfolding set
players_map m [] = m
players_map m (p ∷ ps) = players_map (set m p.id p) ps

unfoldable pub new_machine : Host → Str → Str → List PlayerInfo → Machine
unfolding players_map
new_machine host match_id room_id players = record {
  host = host;
  reads = 0;
  state = record {
    id = match_id;
    room_id = room_id;
    status = created;
    current_round_no = 0;
    total_rounds = 0;
    players = players_map [] players;
    surviving_player_ids = map (λ p. p.id) players;
    eliminated_player_ids = [];
    winner_id = none;
    started_at = some 0;
    ended_at = none;
    phase_ends_at = none;
    round_result_started_at = none;
    candidate_topics = none;
    topic_votes = none;
    banned_topics = none;
    active_topics = none;
  };
  current_round = none;
  eliminated_frozen = false;
  event_log = [];
  event_seq = 0;
  cards = empty_cards;
}

-- One call of `Date.now()`: its answer, and the machine after it.
abbrev pub now : Machine → ℕ
now m = m.host.clock m.reads

abbrev pub tick : Machine → Machine
tick m = record m { reads = suc m.reads }

unfoldable pub log_event : Payload → Machine → Machine
log_event payload m = record m {
  reads = suc m.reads;
  event_seq = suc m.event_seq;
  event_log =
      m.event_log ++ record { payload = payload; timestamp = now m; seq_no = suc m.event_seq } ∷ [];
}

-- The last entry's number, 0 for an empty log.
unfoldable pub last_seq : ℕ → List Event → ℕ
last_seq n [] = n
last_seq n (e ∷ es) = last_seq e.seq_no es

unfoldable pub get_head_seq_no : Machine → ℕ
unfolding last_seq
get_head_seq_no m = last_seq 0 m.event_log

unfoldable pub get_floor_seq_no : Machine → ℕ
get_floor_seq_no m = elim m.event_log [ [] ↦ 0 | e ∷ es ↦ e.seq_no ]

-- The wire form of an event: its id is `${matchId}:${seqNo}`.
pub record WireEvent : Type 0 where
  pub id : Str
  pub payload : Payload
  pub timestamp : ℕ
  pub seq_no : ℕ

abbrev pub to_wire : Str → Event → WireEvent
to_wire match_id e = record {
  id = match_id ++ (lit ":" ++ decimal e.seq_no);
  payload = e.payload;
  timestamp = e.timestamp;
  seq_no = e.seq_no;
}

unfoldable pub get_delta : Machine → ℕ → List WireEvent
get_delta m last_seen = map (to_wire m.state.id) (keep_if (λ e. ltb last_seen e.seq_no) m.event_log)

-- `if (metadata?.eventId)`: an absent or empty id is not recorded.
abbrev pub truthy : Option Str → Option Str
truthy none = none
truthy (some s) = if is_empty s then none else some s
