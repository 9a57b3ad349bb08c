-- ===== src/Match/Rehydrate.antt =====
-- packages/game-core/src/match-state-machine.ts: the card state rebuilt from the event log, and the
-- machine that `deserialize` builds from decoded data.
use the_arena_of.Prelude.{
  ℕ, false, List, [], ◌∷◌, Option, if◌then◌else◌, nat_beq, length, foldl, max, list_eq, nat_eq,
}
use the_arena_of.Prelude.Dict.{set, delete, add, discard, or_else}
use the_arena_of.Text.{Str, is_empty}
use the_arena_of.Cards.Defs.{CardId, card_eq}
use the_arena_of.Match.State.{
  MatchState, RoundState, Payload, round_started, second_chance_granted, second_chance_consumed,
  class_assigned, card_offer, card_picked, card_resolved, Resolution, temporary, mutation,
  ResolvedPayload, CardState, Event, Host, Machine, empty_cards,
}
use the_arena_of.Match.CardPlay.{
  set_all, spend, get_duration_ms, promote_played, add_effect, count_aoe,
}

rehydrate_offer : Str → List CardId → CardState → CardState
rehydrate_offer player_id ids c =
    if nat_beq (length ids) 3
    then record c { hands = set c.hands player_id ids; picked = delete c.picked player_id }
    else c

-- The effect is kept by the recorded resolution; its expiry is a number there.
rehydrate_effect : ℕ → ResolvedPayload → Resolution → CardState → CardState
rehydrate_effect seq_no p mutation c = c
rehydrate_effect seq_no p temporary c =
    add_effect p.played_by
      (record {
        source_seq_no = seq_no;
        effect = p.effect;
        expires_at_server = or_else p.expires_at_server 0;
        persisted_duration_ms = get_duration_ms p.effect;
      })
      c

rehydrate_resolved : ℕ → ResolvedPayload → CardState → CardState
unfolding rehydrate_effect
rehydrate_resolved seq_no p c =
    count_aoe p.round_no p.targets
      (rehydrate_effect seq_no p p.resolution (promote_played p.played_by p.card_id c))

-- The `switch` of `rehydrateEvent`; the last clause is its other events.
rehydrate_payload : ℕ → Payload → CardState → CardState
unfolding rehydrate_offer rehydrate_resolved
rehydrate_payload seq_no (round_started round_no q ends) c = record c { second_chance = [] }
rehydrate_payload seq_no (second_chance_granted id round_no) c =
    if is_empty id then c else record c { second_chance = add c.second_chance id }
rehydrate_payload seq_no (second_chance_consumed id round_no) c =
    if is_empty id then c else record c { second_chance = discard c.second_chance id }
rehydrate_payload seq_no (class_assigned match_id assignments seed) c = record c {
  classes = set_all c.classes assignments;
}
rehydrate_payload seq_no (card_offer round_no player_id ids seed) c =
    rehydrate_offer player_id ids c
rehydrate_payload seq_no (card_picked round_no player_id card offer event_id command_id) c =
    spend player_id card c
rehydrate_payload seq_no (card_resolved p) c = rehydrate_resolved seq_no p c
rehydrate_payload seq_no _ c = c

unfoldable pub rehydrate_event : CardState → Event → CardState
unfolding rehydrate_payload
rehydrate_event c e = rehydrate_payload e.seq_no e.payload c

unfoldable pub rehydrate_card_state : List Event → CardState
rehydrate_card_state log = foldl rehydrate_event empty_cards log

unfoldable pub max_seq : ℕ → List Event → ℕ
max_seq n [] = n
max_seq n (e ∷ es) = max_seq (max e.seq_no n) es

-- The instance that `deserialize` returns for the codec's result, in a process with its own host. Its
-- arrays are new, and none is frozen.
unfoldable pub restore : Host → MatchState → Option RoundState → List Event → Machine
unfolding max_seq
restore host state round log = record {
  host = host;
  reads = 0;
  state = state;
  current_round = round;
  eliminated_frozen = false;
  event_log = log;
  event_seq = max_seq 0 log;
  cards = rehydrate_card_state log;
}
