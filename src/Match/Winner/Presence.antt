-- ===== src/Match/Winner/Presence.antt =====
-- Players who leave and come back: `disconnectPlayer` and `reconnectPlayer` of
-- packages/game-core/src/match-state-machine.ts.
use the_arena_of.Prelude.{
  ◌≡◌, refl, if◌then◌else◌, ap, sym, subst, ◌∙◌, Bool, true, false, ◌||◌, some, list_eq, nat_eq,
}
use the_arena_of.Prelude.Dict.{get, modify, get-modify_self}
use the_arena_of.Text.{Str}
use the_arena_of.Match.State.{player_reconnected, PlayerInfo, PlayerStatus, Machine}
use the_arena_of.Match.Log.{log_event}
use the_arena_of.Match.Winner.{
  set_players, disconnect_status, go_offline, disconnect_player, is_disconnected, rejoin,
  comes_back, reconnect_player,
}

abbrev offline : PlayerInfo → PlayerInfo
offline p = record p { is_online = false; status = (disconnect_status p.status).0 }

go_offline-get :
    (id : Str) (s : PlayerStatus × Bool) (m : Machine) (p : PlayerInfo)
    → get m.state.players id ≡ some p
    → get (go_offline id s m).state.players id ≡ some (record p { is_online = false; status = s.0 })
unfolding go_offline log_event
go_offline-get id (s, true) m p h = get-modify_self m.state.players id _ h
go_offline-get id (s, false) m p h = get-modify_self m.state.players id _ h

disconnect_player-get :
    (id : Str) (m : Machine) (p : PlayerInfo)
    → get m.state.players id ≡ some p
    → get (disconnect_player id m).state.players id ≡ some (offline p)
unfolding disconnect_player
disconnect_player-get id m p h =
    subst (λ (o : Machine). get o.state.players id ≡ some (offline p)) (sym found)
      (go_offline-get id (disconnect_status p.status) m p h)
  where
    found : disconnect_player id m ≡ go_offline id (disconnect_status p.status) m
    found = rw (h, disconnect_player) refl

reconnect_player-get :
    (id : Str) (m : Machine) (p : PlayerInfo)
    → get m.state.players id ≡ some p
    → comes_back p ≡ true
    → get (reconnect_player id m).state.players id ≡ some (rejoin p)
unfolding reconnect_player log_event
reconnect_player-get id m p h e =
    subst (λ (o : Machine). get o.state.players id ≡ some (rejoin p)) (sym found)
      (get-modify_self m.state.players id rejoin h)
  where
    back : Machine
    back = log_event (player_reconnected id) (set_players (modify m.state.players id rejoin) m)

    found : reconnect_player id m ≡ back
    found = rw (h, reconnect_player) (rw e refl)

-- The status after a player has left and come back.
abbrev pub returned : PlayerStatus → PlayerStatus
returned PlayerStatus.disconnected = PlayerStatus.active
returned s = s

offline-comes_back : (p : PlayerInfo) → comes_back (offline p) ≡ true
offline-comes_back p = by_test (is_disconnected (offline p).status)
  where
    by_test : (b : Bool) → (b || true) ≡ true
    by_test true = refl
    by_test false = refl

rejoin-offline :
    (p : PlayerInfo)
    → rejoin (offline p) ≡ record p { is_online = true; status = returned p.status }
unfolding disconnect_status
rejoin-offline p = by_status p.status
  where
    by_status :
        (s : PlayerStatus)
        → record p {
          is_online = true;
          status =
              if is_disconnected (disconnect_status s).0
              then PlayerStatus.active
              else (disconnect_status s).0;
        }
          ≡ record p { is_online = true; status = returned s }
    by_status PlayerStatus.active = refl
    by_status PlayerStatus.eliminated = refl
    by_status PlayerStatus.disconnected = refl
    by_status PlayerStatus.winner = refl

-- A known player who disconnects and comes back is online with the same name, score and statistics. An
-- eliminated player stays eliminated, a winner stays the winner, and any other player is active.
pub reconnect_player-disconnect_player :
    (id : Str) (m : Machine) (p : PlayerInfo)
    → get m.state.players id ≡ some p
    → get (reconnect_player id (disconnect_player id m)).state.players id
      ≡ some (record p { is_online = true; status = returned p.status })
reconnect_player-disconnect_player id m p h =
    reconnect_player-get id (disconnect_player id m) (offline p) (disconnect_player-get id m p h)
      (offline-comes_back p)
    ∙ ap some (rejoin-offline p)
