-- ===== src/Match/CardPlay.antt =====
-- packages/game-core/src/match-state-machine.ts: classes, offers, picks and plays.
pub mod Hands
use the_arena_of.Prelude.{
  ℕ, suc, ◌+◌, ◌-◌, Bool, true, false, not, ◌&&◌, ◌||◌, List, [], ◌∷◌, ◌++◌, Option, none, some,
  if◌then◌else◌, ltb, nat_beq, length, includes, keep_if, map, ◌==◌, list_eq, nat_eq, Eq,
}
use the_arena_of.Prelude.Dict.{Dict, get, set, delete, add, discard, or_else}
use the_arena_of.Errors.{
  Result, ok, err, room_error, player_not_in_room, card_not_in_hand, round_not_active,
  wrong_offer_size, seq_no_drift,
}
use the_arena_of.Text.{Str}
use the_arena_of.Cards.Defs.{ClassId, CardId, card_eq, CardEffect}
use the_arena_of.Cards.Catalog.{get_class_pool}
use the_arena_of.Cards.Engine.{SamplingResult, sample_offer}
use the_arena_of.Rules.Classes.{assign_classes}
use the_arena_of.Match.State.{
  round_active, status_eq, status_beq, RoundState, RoundStatus, class_assigned, card_offer,
  card_picked, card_resolved, second_chance_granted, Resolution, mutation, temporary,
  ResolvedPayload, ActiveEffect, CardState, Event, Machine,
}
use the_arena_of.Match.Log.{log_event, truthy}

abbrev pub set_all {ℓ κ} : {K : Type ℓ} {V : Type κ} ⦃e : Eq K⦄ → Dict K V → List (K × V) → Dict K V
set_all m [] = m
set_all m ((k, v) ∷ kvs) = set_all (set m k v) kvs

unfoldable pub class_assignment : List Str → Str → Machine → Machine × List (Str × ClassId)
class_assignment player_ids seed m =
    let assignments = assign_classes player_ids seed in
    let m' = log_event (class_assigned m.state.id assignments seed) m in
    (
      record m' { cards = record (m'.cards) { classes = set_all m'.cards.classes assignments } },
      assignments,
    )

abbrev pub played_of : CardState → Str → List CardId
played_of c player_id = or_else (get c.played player_id) []

abbrev pub picked_of : CardState → Str → List CardId
picked_of c player_id = or_else (get c.picked player_id) []

abbrev pub hand_of : CardState → Str → List CardId
hand_of c player_id = or_else (get c.hands player_id) []

-- The cards of the class that the player neither picked nor played.
unfoldable pub available_pool : CardState → ClassId → Str → List CardId
available_pool c class player_id =
    keep_if (λ id. not (includes (picked_of c player_id) id || includes (played_of c player_id) id))
      (get_class_pool class)

abbrev pub take_offer : Str → List CardId → CardState → CardState
take_offer player_id ids c = record c {
  hands = set c.hands player_id ids;
  picked = delete c.picked player_id;
}

abbrev pub update_cards : (CardState → CardState) → Machine → Machine
update_cards f m = record m { cards = f m.cards }

-- The offer is logged and becomes the hand; another size is refused before.
unfoldable pub give_offer : Str → ℕ → Str → List CardId → Machine → Machine × Result (List CardId)
give_offer player_id round_no seed ids m = elim (nat_beq (length ids) 3) [
  | true ↦ (
    update_cards (take_offer player_id ids) (log_event (card_offer round_no player_id ids seed) m),
    ok ids,
  )
  | false ↦ (m, err wrong_offer_size)
]

unfoldable pub offered :
    Str → ℕ → Str → Result SamplingResult → Machine → Machine × Result (List CardId)
unfolding give_offer
offered player_id round_no seed (ok r) m = give_offer player_id round_no seed r.cards m
offered player_id round_no seed (err e) m = (m, err e)

unfoldable pub pick_offer : Str → ℕ → Str → Machine → Machine × Result (List CardId)
unfolding offered
pick_offer player_id round_no seed m = elim (get m.cards.classes player_id) [
  | none ↦ (m, err (room_error player_not_in_room))
  | some class ↦
      offered player_id round_no seed
        (sample_offer class seed (available_pool m.cards class player_id)) m
]

abbrev round_no_of : Option RoundState → ℕ
round_no_of none = 0
round_no_of (some r) = r.round_no

-- What a pick does to the hand and to the picked cards.
abbrev pub spend : Str → CardId → CardState → CardState
spend player_id card c = record c {
  hands = set c.hands player_id (keep_if (λ x. not (x == card)) (hand_of c player_id));
  picked = set c.picked player_id (add (picked_of c player_id) card);
}

unfoldable pub pick_card :
    Str → CardId → ℕ → Option Str → Option Str → Machine → Machine × Result (Unit {0})
pick_card player_id card offer_seq_no event_id command_id m =
    elim (includes (hand_of m.cards player_id) card) [
      | true ↦ (
        update_cards (spend player_id card) (
            log_event
              (card_picked (round_no_of m.current_round) player_id card offer_seq_no
                (truthy event_id) (truthy command_id))
              m),
        ok tt,
      )
      | false ↦ (m, err (room_error card_not_in_hand))
    ]

-- `durationMs` of the five temporary kinds.
unfoldable pub temporary_duration : CardEffect → Option ℕ
temporary_duration (CardEffect.option_disable i c n d) = some d
temporary_duration (CardEffect.option_fake i d) = some d
temporary_duration (CardEffect.option_lock d) = some d
temporary_duration (CardEffect.visual_overlay f d) = some d
temporary_duration (CardEffect.semantic_flip d) = some d
temporary_duration _ = none

unfoldable pub is_temporary_effect_kind : CardEffect → Bool
is_temporary_effect_kind e = elim (temporary_duration e) [ none ↦ false | some d ↦ true ]

unfoldable pub get_duration_ms : CardEffect → ℕ
get_duration_ms e = or_else (temporary_duration e) 0

abbrev pub target_round : CardEffect → ℕ → ℕ
target_round (CardEffect.shield n) round_no = n
target_round _ round_no = round_no

abbrev pub is_second_chance : CardEffect → Bool
is_second_chance CardEffect.second_chance = true
is_second_chance _ = false

-- `m.get(k)?.delete(x)` on a map of sets.
abbrev pub discard_at : Dict Str (List CardId) → Str → CardId → Dict Str (List CardId)
discard_at m k x = elim (get m k) [ none ↦ m | some s ↦ set m k (discard s x) ]

-- The card becomes a played one.
abbrev pub promote_played : Str → CardId → CardState → CardState
promote_played player_id card c = record c {
  played = set c.played player_id (add (played_of c player_id) card);
  picked = discard_at c.picked player_id card;
}

abbrev pub add_effect : Str → ActiveEffect → CardState → CardState
add_effect player_id e c = record c {
  effects = set c.effects player_id (or_else (get c.effects player_id) [] ++ e ∷ []);
}

-- Only a play with more than one target counts.
abbrev pub count_aoe : ℕ → List Str → CardState → CardState
count_aoe round_no targets c =
    if ltb 1 (length targets)
    then record c {
      aoe_count = set c.aoe_count round_no (or_else (get c.aoe_count round_no) 0 + 1);
    }
    else c

abbrev pub resolution_of : CardEffect → Resolution
resolution_of e = if is_temporary_effect_kind e then temporary else mutation

-- The payload of a play.
abbrev pub resolved_payload :
    Str
    → CardId
    → ℕ
    → CardEffect
    → List Str
    → ℕ
    → Option Str
    → Option Str
    → ℕ
    → Machine
    → ResolvedPayload
resolved_payload player_id card offer_seq_no effect targets server_now event_id command_id round_no
      m =
    record {
      seq_no = m.event_seq + 1;
      match_id = m.state.id;
      round_no = round_no;
      target_round_no = target_round effect round_no;
      card_id = card;
      offer_seq_no = offer_seq_no;
      played_by = player_id;
      targets = targets;
      effect = effect;
      resolution = resolution_of effect;
      server_timestamp = server_now;
      expires_at_server =
          if is_temporary_effect_kind effect
          then some (server_now + get_duration_ms effect)
          else none;
      remaining_ms =
          if is_temporary_effect_kind effect
          then some (server_now + get_duration_ms effect - server_now)
          else none;
      event_id = truthy event_id;
      command_id = truthy command_id;
    }

-- What a play does to the card state before its second event.
abbrev pub keep_effect : Option ℕ → ResolvedPayload → CardState → CardState
keep_effect none p c = c
keep_effect (some duration) p c =
    add_effect p.played_by
      (record {
        source_seq_no = p.seq_no;
        effect = p.effect;
        expires_at_server = p.server_timestamp + duration;
        persisted_duration_ms = duration;
      })
      c

-- A second chance is granted, and logged.
abbrev pub grant_chance : Bool → ResolvedPayload → Machine → Machine
grant_chance false p m = m
grant_chance true p m =
    log_event (second_chance_granted p.played_by p.round_no)
      (update_cards (λ c. record c { second_chance = add c.second_chance p.played_by }) m)

unfoldable pub apply_play : ResolvedPayload → Machine → Machine
unfolding temporary_duration
apply_play p m =
    update_cards (λ c. promote_played p.played_by p.card_id (count_aoe p.round_no p.targets c))
      (grant_chance (is_second_chance p.effect) p (
        update_cards (keep_effect (temporary_duration p.effect) p) (log_event (card_resolved p) m)))

pub record PlayResult : Type 0 where
  pub seq_no : ℕ
  pub expires_at_server : Option ℕ
  pub remaining_ms : Option ℕ

abbrev pub open_round : Machine → Option RoundState
open_round m =
    if m.state.status == round_active
    then elim m.current_round [
      | none ↦ none
      | some r ↦ elim r.status [ RoundStatus.active ↦ some r | _ ↦ none ]
    ]
    else none

-- `logEvent` has allocated the number that the payload carries, or the play is refused.
unfoldable pub checked_play : ResolvedPayload → Machine → Machine × Result PlayResult
unfolding apply_play
checked_play p m = elim (nat_beq (suc m.event_seq) p.seq_no) [
  | true ↦ (
    apply_play p m,
    ok (record {
      seq_no = p.seq_no;
      expires_at_server = p.expires_at_server;
      remaining_ms = p.remaining_ms;
    }),
  )
  | false ↦ (log_event (card_resolved p) m, err seq_no_drift)
]

unfoldable pub play_card :
    Str
    → CardId
    → ℕ
    → CardEffect
    → List Str
    → ℕ
    → Option Str
    → Option Str
    → Machine
    → Machine × Result PlayResult
unfolding status_beq checked_play
play_card player_id card offer_seq_no effect targets server_now event_id command_id m =
    elim (open_round m) [
      | none ↦ (m, err (room_error round_not_active))
      | some r ↦
          checked_play
            (resolved_payload player_id card offer_seq_no effect targets server_now event_id
              command_id r.round_no m)
            m
    ]

-- The offer of a number, if it went to the player; a payload of another size is no offer.
offer_in : List Event → Str → ℕ → Option (List CardId)
offer_in [] player_id seq_no = none
offer_in (e ∷ es) player_id seq_no =
    let rest = offer_in es player_id seq_no in
    elim e.payload [
      | card_offer round_no owner ids seed ↦
          if nat_beq e.seq_no seq_no && owner == player_id
          then if nat_beq (length ids) 3 then some ids else none
          else rest
      | _ ↦ rest
    ]

unfoldable pub get_card_offer_for_player : Machine → Str → ℕ → Option (List CardId)
unfolding offer_in
get_card_offer_for_player m player_id seq_no = offer_in m.event_log player_id seq_no

unfoldable pub get_aoe_count_for_round : Machine → ℕ → ℕ
get_aoe_count_for_round m round_no = or_else (get m.cards.aoe_count round_no) 0

pub record EffectSnapshot : Type 0 where
  pub source_seq_no : ℕ
  pub effect : CardEffect
  pub remaining_ms : ℕ
  pub persisted_duration_ms : ℕ
  pub expires_at_server : ℕ

abbrev snapshot_of : ℕ → ActiveEffect → EffectSnapshot
snapshot_of server_now e = record {
  source_seq_no = e.source_seq_no;
  effect = e.effect;
  remaining_ms = e.expires_at_server - server_now;
  persisted_duration_ms = e.persisted_duration_ms;
  expires_at_server = e.expires_at_server;
}

unfoldable pub get_active_effects : Machine → Str → ℕ → List EffectSnapshot
get_active_effects m player_id server_now =
    keep_if (λ e. ltb 0 e.remaining_ms)
      (map (snapshot_of server_now) (or_else (get m.cards.effects player_id) []))
