-- ===== src/Match/Synced/Plays.antt =====
-- The log and the cards under classes, offers, picks and plays, in
-- packages/game-core/src/match-state-machine.ts: what a method does and what its event does on a replay.
use native.Mathlib.Numerals.{add-one}
use the_arena_of.Prelude.{
  ◌∙◌, nat_beq_iff, true, false, ◌+◌, Bool, list_eq, nat_eq, ℕ, ◌≡◌, refl, List, Option, none, some,
  inl, inr, Bool-cases, Option-cases, ltb, length, includes, nat_beq,
}
use the_arena_of.Prelude.Dict.{add, get}
use the_arena_of.Text.{Str}
use the_arena_of.Errors.{Result, ok, err}
use the_arena_of.Cards.Defs.{CardEffect, CardId, card_eq}
use the_arena_of.Cards.Engine.{SamplingResult, sample_offer}
use the_arena_of.Match.State.{
  second_chance_granted, card_resolved, ResolvedPayload, CardState, Machine, card_offer,
}
use the_arena_of.Match.Log.{now, log_event}
use the_arena_of.Match.CardPlay.{
  is_second_chance, open_round, apply_play, checked_play, play_card, resolved_payload, grant_chance,
  get_duration_ms, update_cards, is_temporary_effect_kind, temporary_duration, class_assignment,
  available_pool, take_offer, give_offer, offered, pick_offer, hand_of, pick_card, promote_played,
  count_aoe, keep_effect,
}
use the_arena_of.Match.Rehydrate.{rehydrate_event}
use the_arena_of.Match.Synced.{arith, sym, suc, IsSynced, logged-IsSynced}

pub class_assignment-IsSynced :
    (ids : List Str) (seed : Str) (m : Machine)
    → IsSynced m
    → IsSynced (class_assignment ids seed m).0
unfolding class_assignment log_event rehydrate_event
class_assignment-IsSynced ids seed m s = logged-IsSynced _ m _ s (λ _. refl)

give_offer-IsSynced :
    (id : Str) (n : ℕ) (seed : Str) (cards : List CardId) (m : Machine)
    → IsSynced m
    → IsSynced (give_offer id n seed cards m).0
unfolding give_offer log_event rehydrate_event
give_offer-IsSynced id n seed cards m s = elim (Bool-cases (nat_beq (length cards) 3)) [
  | inl e ↦
      rw (e, give_offer)
        (logged-IsSynced (card_offer n id cards seed) m (take_offer id cards m.cards) s
          (λ _. rw (e, rehydrate_event) refl))
  | inr e ↦ rw (e, give_offer) s
]

offered-IsSynced :
    (id : Str) (n : ℕ) (seed : Str) (r : Result SamplingResult) (m : Machine)
    → IsSynced m
    → IsSynced (offered id n seed r m).0
unfolding offered
offered-IsSynced id n seed (ok r) m s = give_offer-IsSynced id n seed r.cards m s
offered-IsSynced id n seed (err e) m s = s

pub pick_offer-IsSynced :
    (id : Str) (n : ℕ) (seed : Str) (m : Machine) → IsSynced m → IsSynced (pick_offer id n seed m).0
unfolding pick_offer
pick_offer-IsSynced id n seed m s = elim (Option-cases (get m.cards.classes id)) [
  | inl e ↦ rw (e, pick_offer) s
  | inr (c, e) ↦
      rw (e, pick_offer)
        (offered-IsSynced id n seed (sample_offer c seed (available_pool m.cards c id)) m s)
]

pub pick_card-IsSynced :
    (id : Str) (c : CardId) (n : ℕ) (e k : Option Str) (m : Machine)
    → IsSynced m
    → IsSynced (pick_card id c n e k m).0
unfolding pick_card log_event rehydrate_event
pick_card-IsSynced id c n e k m s = elim (Bool-cases (includes (hand_of m.cards id) c)) [
  | inl f ↦ rw (f, pick_card) (logged-IsSynced _ m _ s (λ _. refl))
  | inr f ↦ rw (f, pick_card) s
]

-- The order of the updates of a play does not matter: they touch different fields.
commuted :
    (d : Option ℕ) (p : ResolvedPayload) (c : CardState)
    → count_aoe p.round_no p.targets (keep_effect d p (promote_played p.played_by p.card_id c))
      ≡ promote_played p.played_by p.card_id (count_aoe p.round_no p.targets (keep_effect d p c))
commuted none p c = elim (Bool-cases (ltb 1 (length p.targets))) [ inl e ↦ rw e | inr e ↦ rw e ]
commuted (some d) p c = elim (Bool-cases (ltb 1 (length p.targets))) [ inl e ↦ rw e | inr e ↦ rw e ]

-- What the replay makes of a play's event, for a payload whose fields agree with its effect.
abbrev Replayed : ResolvedPayload → ℕ → Type 0
Replayed p seq =
    (c : CardState) (t : ℕ)
    → rehydrate_event c (record { payload = card_resolved p; timestamp = t; seq_no = seq })
      ≡ count_aoe p.round_no p.targets
          (keep_effect (temporary_duration p.effect) p (promote_played p.played_by p.card_id c))

resolved_payload-Replayed :
    (id : Str) (c : CardId) (n : ℕ) (f : CardEffect) (ts : List Str) (t : ℕ) (e k : Option Str)
    (round : ℕ) (m : Machine)
    → Replayed (resolved_payload id c n f ts t e k round m) (m.event_seq + 1)
unfolding rehydrate_event temporary_duration is_temporary_effect_kind get_duration_ms
resolved_payload-Replayed id c n (CardEffect.timer_modify a b) ts t e k round m = λ _ _. refl
resolved_payload-Replayed id c n (CardEffect.option_disable a b d g) ts t e k round m = λ _ _. refl
resolved_payload-Replayed id c n _ ts t e k round m = λ _ _. refl

-- What a play makes of the cards, but for the second chance.
abbrev played_cards : Option ℕ → ResolvedPayload → CardState → CardState
played_cards d p c =
    promote_played p.played_by p.card_id (count_aoe p.round_no p.targets (keep_effect d p c))

chance_commuted :
    (d : Option ℕ) (p : ResolvedPayload) (c : CardState)
    → (let c' = played_cards d p c in
        record c' { second_chance = add c'.second_chance p.played_by })
      ≡ promote_played p.played_by p.card_id (
          count_aoe p.round_no p.targets (
            let k = keep_effect d p c in
            record k { second_chance = add k.second_chance p.played_by }))
chance_commuted d p c = elim (Bool-cases (ltb 1 (length p.targets))) [ inl e ↦ rw e | inr e ↦ rw e ]

-- The state after a play, by whether it grants a second chance.
granted-IsSynced :
    (second : Bool) (d : Option ℕ) (p : ResolvedPayload) (m : Machine)
    → IsSynced (record (log_event (card_resolved p) m) { cards = played_cards d p m.cards })
    → IsSynced (
        update_cards
          (λ c. promote_played p.played_by p.card_id (count_aoe p.round_no p.targets c))
          (grant_chance second p (update_cards (keep_effect d p) (log_event (card_resolved p) m))))
unfolding log_event rehydrate_event
granted-IsSynced false d p m s = s
granted-IsSynced true d p m s =
    logged-IsSynced (second_chance_granted p.played_by p.round_no)
      (record (log_event (card_resolved p) m) { cards = played_cards d p m.cards }) _ s
      (λ h. rw h (chance_commuted d p m.cards))

apply_play-IsSynced :
    (p : ResolvedPayload) (m : Machine)
    → IsSynced m
    → Replayed p (suc m.event_seq)
    → IsSynced (apply_play p m)
unfolding apply_play
apply_play-IsSynced p m s replayed =
    granted-IsSynced (is_second_chance p.effect) (temporary_duration p.effect) p m (
      logged-IsSynced (card_resolved p) m _ s
        (λ _. replayed m.cards (now m) ∙ commuted (temporary_duration p.effect) p m.cards))

checked_play-IsSynced :
    (p : ResolvedPayload) (m : Machine)
    → IsSynced m
    → Replayed p (suc m.event_seq)
    → suc m.event_seq ≡ p.seq_no
    → IsSynced (checked_play p m).0
unfolding checked_play
checked_play-IsSynced p m s replayed e =
    rw ((nat_beq_iff (suc m.event_seq) p.seq_no).1 e, checked_play)
      (apply_play-IsSynced p m s replayed)

pub play_card-IsSynced :
    (id : Str) (c : CardId) (n : ℕ) (f : CardEffect) (ts : List Str) (t : ℕ) (e k : Option Str)
    (m : Machine)
    → IsSynced m
    → IsSynced (play_card id c n f ts t e k m).0
unfolding play_card
play_card-IsSynced id c n f ts t e k m s = elim (Option-cases (open_round m)) [
  | inl o ↦ rw (o, play_card) s
  | inr (r, o) ↦
      rw (o, play_card)
        (checked_play-IsSynced (resolved_payload id c n f ts t e k r.round_no m) m s
          (rw (sym (add-one m.event_seq))
            (resolved_payload-Replayed id c n f ts t e k r.round_no m))
          (omega arith))
]
