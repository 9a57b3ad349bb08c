-- ===== src/Cards/Validator/Passed.antt =====
-- What each check of apps/api/src/modules/match/card-validator.ts says when it passes.
use the_arena_of.Prelude.{
  ◌≡◌, refl, sym, ap, subst, ◌∙◌, Bool, true, false, not, ◌&&◌, ◌||◌, List, [], ◌∷◌, Option, none,
  some, if◌then◌else◌, ◌==◌, list_eq, nat_eq, ◌⊎◌, Bool-cases, inl, inr, list_beq_iff, ◌++◌,
}
use the_arena_of.Prelude.Dict.{is_some}
use the_arena_of.Errors.{Result, ok, ErrorCode, ok->>=, invalid_payload, player_not_in_room}
use the_arena_of.Text.{Str}
use the_arena_of.Cards.Defs.{card_text, card_eq, CardDefinition}
use the_arena_of.Match.State.{MatchStatus, round_active, status_eq, RoundStatus}
use the_arena_of.Cards.Catalog.{card_catalog}
use the_arena_of.Cards.Validator.{
  validate_attack_target, ensure, find_by_text, defined, assert_card_id, is_aoe_card,
  is_attack_card, given, same_player, in_roster, validate_target, is_playing, is_open,
}

pub passed : (b : Bool) (code : ErrorCode) (u : Unit {0}) → ensure b code ≡ ok u → b ≡ true
passed true code u h = refl
passed false code u h = cc

-- An attack names a player of the room, other than the one who plays it, unless it is one on the whole
-- room; a defense names nobody.
abbrev pub Targeted : CardDefinition → Option Str → List Str → Option Str → Type 0
Targeted d target roster acting =
    ((is_attack_card d ≡ true)
      × (is_aoe_card d || given target ≡ true)
      × (given target && given acting && same_player target acting ≡ false)
      × (given target ≡ true → in_roster target roster ≡ true))
    ⊎ ((is_attack_card d ≡ false) × (target ≡ none))

absent : (o : Option Str) → not (is_some o) ≡ true → o ≡ none
absent none h = refl
absent (some id) h = cc

attack-Targeted :
    (d : CardDefinition) (target : Option Str) (roster : List Str) (acting : Option Str)
    (u : Unit {0})
    → is_attack_card d ≡ true
    → validate_attack_target d target roster acting ≡ ok u
    → Targeted d target roster acting
attack-Targeted d target roster acting u e h =
    let aimed = ok->>= (ensure (is_aoe_card d || given target) invalid_payload) _ h in
    let other =
      ok->>=
        (ensure (not (given target && given acting && same_player target acting)) invalid_payload) _
        aimed.2 in
    let present =
      passed (not (given target) || in_roster target roster) player_not_in_room u other.2 in
    let aimed_at = passed (is_aoe_card d || given target) invalid_payload aimed.0 aimed.1 in
    let another =
      passed (not (given target && given acting && same_player target acting)) invalid_payload
        other.0 other.1 in
    inl (e, aimed_at, not_true _ another, λ g. in_room (given target) g present)
  where
    not_true : (b : Bool) → not b ≡ true → b ≡ false
    not_true true h = cc
    not_true false h = refl

    in_room :
        (b : Bool)
        → b ≡ true
        → not b || in_roster target roster ≡ true
        → in_roster target roster ≡ true
    in_room true g p = p
    in_room false g p = cc

pub validate_target-Targeted :
    (d : CardDefinition) (target : Option Str) (roster : List Str) (acting : Option Str)
    (u : Unit {0})
    → validate_target d target roster acting ≡ ok u
    → Targeted d target roster acting
validate_target-Targeted d target roster acting u h = elim (Bool-cases (is_attack_card d)) [
  | inl e ↦ attack-Targeted d target roster acting u e (subst (λ b. chosen b ≡ ok u) e h)
  | inr e ↦ inr (
    e,
    absent target
        (passed (not (is_some target)) invalid_payload u (subst (λ b. chosen b ≡ ok u) e h)),
  )
]
  where
    chosen : Bool → Result (Unit {0})
    chosen b =
        if b
        then validate_attack_target d target roster acting
        else ensure (not (is_some target)) invalid_payload

find_by_text_sound :
    (id : Str) (ds : List CardDefinition) (d : CardDefinition)
    → find_by_text id ds ≡ some d
    → card_text d.id ≡ id
find_by_text_sound id [] d h = cc
find_by_text_sound id (e ∷ ds) d h = elim (Bool-cases (card_text e.id == id)) [
  | inl y ↦
      let e≡d : e ≡ d =
        some_inj (subst (λ b. (if b then some e else find_by_text id ds) ≡ some d) y h) in
      subst (λ (c : CardDefinition). card_text c.id ≡ id) e≡d
        ((list_beq_iff (card_text e.id) id).0 y)
  | inr n ↦
      find_by_text_sound id ds d
        (subst (λ b. (if b then some e else find_by_text id ds) ≡ some d) n h)
]
  where
    some_inj : {a b : CardDefinition} → some a ≡ some b → a ≡ b
    some_inj h = cc

found : (o : Option CardDefinition) (d : CardDefinition) → defined o ≡ ok d → o ≡ some d
found none d h = cc
found (some e) d h = cc

pub assert_card_id_sound :
    (id : Option Str) (d : CardDefinition) → assert_card_id id ≡ ok d → id ≡ some (card_text d.id)
unfolding assert_card_id
assert_card_id_sound none d h = cc
assert_card_id_sound (some id) d h =
    ap some (sym (find_by_text_sound id card_catalog d (found (find_by_text id card_catalog) d h)))

-- A card's definition stands in a list.
abbrev pub In : CardDefinition → List CardDefinition → Type 0
In d ds =
    (before : List CardDefinition) × (after : List CardDefinition) × (ds ≡ before ++ d ∷ after)

find_by_text-In :
    (id : Str) (ds : List CardDefinition) (d : CardDefinition)
    → find_by_text id ds ≡ some d
    → In d ds
find_by_text-In id [] d h = cc
find_by_text-In id (e ∷ ds) d h = elim (Bool-cases (card_text e.id == id)) [
  | inl y ↦
      let e≡d : e ≡ d =
        some_inj (subst (λ b. (if b then some e else find_by_text id ds) ≡ some d) y h) in
      ([], ds, ap (λ x. x ∷ ds) e≡d)
  | inr n ↦
      let rest =
        find_by_text-In id ds d
          (subst (λ b. (if b then some e else find_by_text id ds) ≡ some d) n h) in
      (e ∷ rest.0, rest.1, ap (e ∷◌) rest.2)
]
  where
    some_inj : {a b : CardDefinition} → some a ≡ some b → a ≡ b
    some_inj h = cc

pub assert_card_id-In :
    (id : Option Str) (d : CardDefinition) → assert_card_id id ≡ ok d → In d card_catalog
unfolding assert_card_id
assert_card_id-In none d h = cc
assert_card_id-In (some id) d h =
    find_by_text-In id card_catalog d (found (find_by_text id card_catalog) d h)

pub playing :
    (o : Option MatchStatus)
    → is_playing o ≡ true
    → (s : MatchStatus) → o ≡ some s
    → s ≡ round_active
playing none h s e = cc
playing (some t) h s e = let t≡s : t ≡ s = cc in sym t≡s ∙ (status_eq.beq_iff t round_active).0 h

pub playable :
    (o : Option RoundStatus)
    → is_open o ≡ true
    → (s : RoundStatus) → o ≡ some s
    → s ≡ RoundStatus.active
playable none h s e = cc
playable (some RoundStatus.active) h s e = cc
playable (some RoundStatus.pending) h s e = cc
playable (some RoundStatus.evaluating) h s e = cc
playable (some RoundStatus.completed) h s e = cc
