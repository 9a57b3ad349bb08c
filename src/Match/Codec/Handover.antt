-- ===== src/Match/Codec/Handover.antt =====
-- What clients see of a match that another process picks up: packages/game-core/src/match-state.codec.ts with
-- `getSnapshot` of packages/game-core/src/match-state-machine.ts.
use the_arena_of.Prelude.{
  false, ℕ, ◌≡◌, refl, ◌∙◌, ap, map, Distinct, list_eq, nat_eq, List, Option, none, some,
}
use the_arena_of.Text.{Str}
use the_arena_of.Errors.{ok}
use the_arena_of.Match.State.{Host, PlayerInfo, RoundState, CardState, Machine}
use the_arena_of.Match.Log.{new_machine}
use the_arena_of.Match.Rehydrate.{restore, rehydrate_card_state}
use the_arena_of.Match.Run.{Command, run}
use the_arena_of.Match.Snapshot.{question_of, end_of, get_snapshot}
use the_arena_of.Match.Codec.{Json, serialize_match}
use the_arena_of.Match.Codec.Decode.{DecodedMatch, deserialize_match}
use the_arena_of.Match.Codec.Trip.{IsJson}
use the_arena_of.Match.Codec.Fields.{hide_round}
use the_arena_of.Match.Codec.Recovery.{restore-stored_replayed}

hide_round-seen :
    (round : Option RoundState)
    → (question_of (hide_round round) ≡ question_of round)
      × (end_of (hide_round round) ≡ end_of round)
hide_round-seen none = (refl, refl)
hide_round-seen (some r) = (refl, refl)

get_snapshot-hide_round :
    (n : ℕ) (m : Machine) (other : Host) (cards : CardState)
    → get_snapshot n (record m {
      host = other;
      reads = 0;
      eliminated_frozen = false;
      current_round = hide_round m.current_round;
      cards = cards;
    })
      ≡ get_snapshot n m
unfolding get_snapshot
get_snapshot-hide_round n m other cards =
    rw ((hide_round-seen m.current_round).0, (hide_round-seen m.current_round).1) refl

-- After any calls on a new match of distinct players: the stored text is accepted, and the process that
-- picks the match up gives a client the very snapshot that the first process would have given.
pub get_snapshot-restore {ℓ} :
    {T : Type ℓ} (json : Json T)
    → IsJson json
    → (host other : Host) (id room : Str) (players : List PlayerInfo) (cs : List Command) (n : ℕ)
    → Distinct (map (λ (p : PlayerInfo). p.id) players)
    → let m = run cs (new_machine host id room players) in
      (d : DecodedMatch) × (deserialize_match json
          (serialize_match json m.state m.current_round m.event_log)
        ≡ ok d)
      × (get_snapshot n (restore other d.state d.current_round d.event_log) ≡ get_snapshot n m)
get_snapshot-restore json laws host other id room players cs n distinct =
    let m = run cs (new_machine host id room players) in
    let stored = restore-stored_replayed json laws host other id room players cs distinct in
    (
      stored.0,
      stored.1,
      ap (get_snapshot n) stored.2
          ∙ get_snapshot-hide_round n m other (rehydrate_card_state m.event_log),
    )
