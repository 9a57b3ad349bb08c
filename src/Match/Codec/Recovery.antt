-- ===== src/Match/Codec/Recovery.antt =====
-- A match that is stored and picked up by another process: packages/game-core/src/match-state.codec.ts with
-- `deserialize` of packages/game-core/src/match-state-machine.ts.
use the_arena_of.Prelude.{
  sym, ◌∙◌, false, ◌≡◌, ap, map, Distinct, list_eq, nat_eq, List, Option, none, some,
}
use the_arena_of.Text.{Str}
use the_arena_of.Errors.{ok}
use the_arena_of.Match.State.{Host, PlayerInfo, RoundState, Machine}
use the_arena_of.Match.Log.{new_machine}
use the_arena_of.Match.Phase.Anchors.{Anchored}
use the_arena_of.Match.Rehydrate.{restore, rehydrate_card_state}
use the_arena_of.Match.Run.{Command, run}
use the_arena_of.Match.Run.Anchored.{run_new-IsAnchored}
use the_arena_of.Match.Synced.Runs.{restore-replayed, run_new-Synced}
use the_arena_of.Match.Synced.{Named}
use the_arena_of.Match.Codec.{Json, serialize_match}
use the_arena_of.Match.Codec.Maps.{Keyed}
use the_arena_of.Match.Codec.Kept.{KeptAt}
use the_arena_of.Match.Codec.Storability.{run_new-IsStorable}
use the_arena_of.Match.Codec.Decode.{DecodedMatch, deserialize_match}
use the_arena_of.Match.Codec.Trip.{IsJson, deserialize_match-serialize_match}
use the_arena_of.Match.Codec.Fields.{Storable, hide_round}

storable :
    (m : Machine) (round : Option RoundState)
    → Keyed m.state.players
    → Anchored m.state.status m.state.round_result_started_at m.state.phase_ends_at
    → KeptAt m.state.status m.state.phase_ends_at round
    → Storable m.state round
storable m none k a h = (k, a)
storable m (some r) k a h = (k, a, h)

-- After any calls on a new match of distinct players, the stored text is accepted, and the machine that another
-- process builds from it has the cards that the log makes.
pub restore-stored_replayed {ℓ} :
    {T : Type ℓ} (json : Json T)
    → IsJson json
    → (host other : Host) (id room : Str) (players : List PlayerInfo) (cs : List Command)
    → Distinct (map (λ (p : PlayerInfo). p.id) players)
    → let m = run cs (new_machine host id room players) in
      (d : DecodedMatch) × (deserialize_match json
          (serialize_match json m.state m.current_round m.event_log)
        ≡ ok d)
      × (restore other d.state d.current_round d.event_log ≡ record m {
        host = other;
        reads = 0;
        eliminated_frozen = false;
        current_round = hide_round m.current_round;
        cards = rehydrate_card_state m.event_log;
      })
unfolding restore
restore-stored_replayed json laws host other id room players cs distinct =
    let m = run cs (new_machine host id room players) in
    let anchored = run_new-IsAnchored host id room players cs in
    let kept = run_new-IsStorable host id room players cs distinct in
    (
      record {
        state = m.state;
        current_round = hide_round m.current_round;
        event_log = m.event_log;
      },
      deserialize_match-serialize_match json laws m.state m.current_round m.event_log
          (storable m m.current_round kept.0 anchored kept.2),
      ap (λ (n : Machine). record n { current_round = hide_round m.current_round })
          (restore-replayed host other id room players cs),
    )

-- After any calls on a new match of distinct players, in which no second chance was logged for an empty
-- player identifier: the stored text is accepted, and the machine that another process builds from it is
-- the match itself, with that process's host, its clock unread, the array of the eliminated players not
-- frozen, and the round without its answer key.
pub restore-stored {ℓ} :
    {T : Type ℓ} (json : Json T)
    → IsJson json
    → (host other : Host) (id room : Str) (players : List PlayerInfo) (cs : List Command)
    → Distinct (map (λ (p : PlayerInfo). p.id) players)
    → Named (run cs (new_machine host id room players)).event_log
    → let m = run cs (new_machine host id room players) in
      (d : DecodedMatch) × (deserialize_match json
          (serialize_match json m.state m.current_round m.event_log)
        ≡ ok d)
      × (restore other d.state d.current_round d.event_log ≡ record m {
        host = other;
        reads = 0;
        eliminated_frozen = false;
        current_round = hide_round m.current_round;
      })
restore-stored json laws host other id room players cs distinct named =
    let m = run cs (new_machine host id room players) in
    let stored = restore-stored_replayed json laws host other id room players cs distinct in
    (
      stored.0,
      stored.1,
      stored.2
          ∙ ap
              (λ c. record m {
                host = other;
                reads = 0;
                eliminated_frozen = false;
                current_round = hide_round m.current_round;
                cards = c;
              })
              (sym (run_new-Synced host id room players cs named).2),
    )
