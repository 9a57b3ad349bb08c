-- ===== src/Match/Winner.antt =====
-- packages/game-core/src/match-state-machine.ts: the end of a match, and players who come and go.
pub mod Crown
pub mod Presence
use the_arena_of.Prelude.{
  ℕ, Bool, true, false, not, ◌||◌, List, [], ◌∷◌, Option, none, some, if◌then◌else◌, leb, length,
  list_eq, nat_eq, map,
}
use the_arena_of.Prelude.Dict.{Dict, get, modify}
use the_arena_of.Text.{Str}
use the_arena_of.Rules.TieBreak.{resolve_tie_break}
use the_arena_of.Match.State.{
  PlayerStatus, PlayerInfo, tie_break, match_finished, player_disconnected, player_reconnected,
  Machine,
}
use the_arena_of.Match.Log.{now, tick, log_event}

unfoldable pub should_end_match : Option ℕ → Machine → Bool
should_end_match max_rounds m =
    leb (length m.state.surviving_player_ids) 1
    || elim max_rounds [ none ↦ false | some n ↦ leb n m.state.current_round_no ]

unfoldable pub break_tie : List Str → Machine → Machine × Option Str
break_tie [] m = (m, none)
break_tie (id ∷ ids) m =
    let winner = resolve_tie_break (id ∷ ids) m.state.players m.state.id in
    (log_event (tie_break winner (id ∷ ids)) m, winner)

-- `logEvent` deep-freezes its payload, and a tie among the eliminated players logs the very array of the
-- state.
unfoldable pub tie_eliminated : List Str → Machine → Machine × Option Str
unfolding break_tie
tie_eliminated [] m = (m, none)
tie_eliminated (id ∷ ids) m =
    let tied = break_tie (id ∷ ids) m in (record tied.0 { eliminated_frozen = true }, tied.1)

unfoldable pub determine_from : List Str → List Str → Machine → Machine × Option Str
unfolding break_tie tie_eliminated
determine_from [] eliminated m = tie_eliminated eliminated m
determine_from (id ∷ []) eliminated m = (m, some id)
determine_from (id ∷ next ∷ ids) eliminated m = break_tie (id ∷ next ∷ ids) m

-- An empty list of eliminated players gives no winner and no event, as `tieBreak` does.
unfoldable pub determine_winner : Machine → Machine × Option Str
unfolding determine_from
determine_winner m = determine_from m.state.surviving_player_ids m.state.eliminated_player_ids m

abbrev pub crown : PlayerInfo → PlayerInfo
crown p = record p { status = PlayerStatus.winner }

abbrev pub promote : Option Str → Dict Str PlayerInfo → Dict Str PlayerInfo
promote none players = players
promote (some id) players = modify players id crown

unfoldable pub finish_match : Machine → Machine
finish_match m =
    let m' = (determine_winner m).0 in
    let winner = (determine_winner m).1 in
    log_event (match_finished winner m'.state.total_rounds) (record (tick m') {
      state = record (m'.state) {
        players = promote winner m'.state.players;
        winner_id = winner;
        ended_at = some (now m');
      };
    })

abbrev pub set_players : Dict Str PlayerInfo → Machine → Machine
set_players players m = record m { state = record (m.state) { players = players } }

-- The status after a disconnect, and whether it is logged.
unfoldable pub disconnect_status : PlayerStatus → PlayerStatus × Bool
disconnect_status PlayerStatus.eliminated = (PlayerStatus.eliminated, false)
disconnect_status PlayerStatus.winner = (PlayerStatus.winner, false)
disconnect_status PlayerStatus.disconnected = (PlayerStatus.disconnected, false)
disconnect_status PlayerStatus.active = (PlayerStatus.disconnected, true)

-- The player goes offline with a status, and a change of the status is logged.
unfoldable pub go_offline : Str → PlayerStatus × Bool → Machine → Machine
go_offline player_id (status, logged) m =
    let m' =
      set_players
        (modify m.state.players player_id (λ q. record q { is_online = false; status = status }))
        m in
    elim logged [ true ↦ log_event (player_disconnected player_id) m' | false ↦ m' ]

unfoldable pub disconnect_player : Str → Machine → Machine
unfolding disconnect_status go_offline
disconnect_player player_id m = elim (get m.state.players player_id) [
  | none ↦ m
  | some p ↦ go_offline player_id (disconnect_status p.status) m
]

abbrev pub is_disconnected : PlayerStatus → Bool
is_disconnected PlayerStatus.disconnected = true
is_disconnected _ = false

abbrev pub rejoin : PlayerInfo → PlayerInfo
rejoin p = record p {
  is_online = true;
  status = if is_disconnected p.status then PlayerStatus.active else p.status;
}

abbrev pub comes_back : PlayerInfo → Bool
comes_back p = is_disconnected p.status || not p.is_online

unfoldable pub reconnect_player : Str → Machine → Machine
reconnect_player player_id m = elim (get m.state.players player_id) [
  | none ↦ m
  | some p ↦ elim (comes_back p) [
    | true ↦
        log_event (player_reconnected player_id)
          (set_players (modify m.state.players player_id rejoin) m)
    | false ↦ m
  ]
]

-- The average response time is the fraction `avg.0 / avg.1`.
pub record PlayerScore : Type 0 where
  pub user_id : Str
  pub score : ℕ
  pub avg_response : Option (ℕ × ℕ)

unfoldable pub get_player_scores : Machine → List PlayerScore
get_player_scores m =
    map
      (λ (e : Str × PlayerInfo). record {
        user_id = e.0;
        score = e.1.score;
        avg_response =
            if leb 1 e.1.correct_answers
            then some (e.1.total_response_time_ms, e.1.correct_answers)
            else none;
      })
      m.state.players
