-- ===== src/Match/CardPlay/Hands.antt =====
-- What an offer and a pick do to a hand: `pickOffer` and `pickCard` of
-- packages/game-core/src/match-state-machine.ts.
use the_arena_of.Prelude.{
  ◌||◌, All, All-includes, All-append_left, ℕ, ◌≡◌, refl, sym, ap, subst, ◌∙◌, Bool, true, false,
  not, List, [], ◌∷◌, ◌++◌, Option, some, inl, inr, Bool-cases, ◌⊎◌, ◌<◌, length, includes, keep_if,
  min, Perm, nat_beq, nat_beq_iff, ltb, ltb→lt, ◌==◌, list_eq, nat_eq, arith,
}
use the_arena_of.Prelude.Dict.{get, or_else, get-set_self}
use the_arena_of.Text.{Str}
use the_arena_of.Errors.{Result, ok, err, room_error, card_not_in_hand, wrong_offer_size}
use the_arena_of.Cards.Defs.{CardId, card_eq, ClassId}
use the_arena_of.Cards.Engine.{sample_offer, SamplingResult}
use the_arena_of.Cards.Engine.Sampling.{sample_offer-total}
use the_arena_of.Cards.Catalog.{get_class_pool}
use the_arena_of.Prelude.Perms.{All-Perm}
use the_arena_of.Match.State.{card_picked, Machine}
use the_arena_of.Match.Log.{log_event, truthy}
use the_arena_of.Match.CardPlay.{
  round_no_of, hand_of, available_pool, give_offer, offered, pick_offer, pick_card, spend,
  update_cards,
}

not-in_rest :
    (card : CardId) (hand : List CardId)
    → includes (keep_if (λ x. not (x == card)) hand) card ≡ false
not-in_rest card [] = refl
not-in_rest card (x ∷ xs) = elim (Bool-cases (x == card)) [
  | inl e ↦ rw e (not-in_rest card xs)
  | inr e ↦ rw (e, e) (not-in_rest card xs)
]

pick_card-refused :
    (id : Str) (card : CardId) (n : ℕ) (event command : Option Str) (m : Machine)
    → includes (hand_of m.cards id) card ≡ false
    → pick_card id card n event command m ≡ (m, err (room_error card_not_in_hand))
unfolding pick_card
pick_card-refused id card n event command m e = rw (e, pick_card) refl

pick_card-spent :
    (id : Str) (card : CardId) (n : ℕ) (event command : Option Str) (m : Machine)
    → (pick_card id card n event command m).1 ≡ ok tt
    → includes (hand_of (pick_card id card n event command m).0.cards id) card ≡ false
unfolding pick_card log_event
pick_card-spent id card n event command m h = by_test (includes (hand_of m.cards id) card) h
  where
    picked : Machine × Result (Unit {0})
    picked = (
      update_cards (spend id card) (
          log_event
            (card_picked (round_no_of m.current_round) id card n (truthy event) (truthy command))
            m),
      ok tt,
    )

    outcome : Bool → Machine × Result (Unit {0})
    outcome true = picked
    outcome false = (m, err (room_error card_not_in_hand))

    by_test :
        (b : Bool) → (outcome b).1 ≡ ok tt → includes (hand_of (outcome b).0.cards id) card ≡ false
    by_test true h =
        ap (λ o. includes (or_else o []) card)
          (get-set_self m.cards.hands id (keep_if (λ x. not (x == card)) (hand_of m.cards id)))
        ∙ not-in_rest card (hand_of m.cards id)
    by_test false h = cc

-- A card is picked once from an offer: after a pick that returned, a second pick of the same card by
-- that player is refused as CARD_NOT_IN_HAND, whatever its arguments, and changes nothing.
pub pick_card-once :
    (id : Str) (card : CardId) (n : ℕ) (event command : Option Str) (m : Machine)
    → (pick_card id card n event command m).1 ≡ ok tt
    → (n' : ℕ) (event' command' : Option Str)
    → pick_card id card n' event' command' (pick_card id card n event command m).0
      ≡ ((pick_card id card n event command m).0, err (room_error card_not_in_hand))
pick_card-once id card n event command m h n' event' command' =
    pick_card-refused id card n' event' command' (pick_card id card n event command m).0
      (pick_card-spent id card n event command m h)

-- A card of the class that the player has not picked and not played.
abbrev pub IsFresh : Machine → Str → ClassId → CardId → Type 0
IsFresh m id class card =
    (includes (get_class_pool class) card ≡ true)
    × (includes (or_else (get m.cards.picked id) []) card ≡ false)
    × (includes (or_else (get m.cards.played id) []) card ≡ false)

-- The card is of another class, or picked, or played.
abbrev stale : Machine → Str → ClassId → CardId → Bool
stale m id class card =
    not (includes (get_class_pool class) card)
    || (includes (or_else (get m.cards.picked id) []) card
        || includes (or_else (get m.cards.played id) []) card)

fresh-keep :
    (picked played pool cards : List CardId)
    → All (λ c. includes pool c ≡ true) cards
    → All
        (λ c. not (includes pool c) || (includes picked c || includes played c) ≡ false)
        (keep_if (λ c. not (includes picked c || includes played c)) cards)
fresh-keep picked played pool [] h = tt
fresh-keep picked played pool (c ∷ cs) h =
    elim (Bool-cases (includes picked c || includes played c)) [
      | inl p ↦ rw p (fresh-keep picked played pool cs h.1)
      | inr p ↦ rw p (rw (h.0, p) refl, fresh-keep picked played pool cs h.1)
    ]

stale-IsFresh :
    (m : Machine) (id : Str) (class : ClassId) (cards : List CardId)
    → All (λ c. stale m id class c ≡ false) cards
    → All (IsFresh m id class) cards
stale-IsFresh m id class [] h = tt
stale-IsFresh m id class (c ∷ cs) h = (
  (ground (arith, h.0), ground (arith, h.0), ground (arith, h.0)),
  stale-IsFresh m id class cs h.1,
)

-- What is drawn from the available cards is fresh.
drawn-IsFresh :
    (m : Machine) (id : Str) (class : ClassId) (cards rest : List CardId)
    → Perm (available_pool m.cards class id) (cards ++ rest)
    → All (IsFresh m id class) cards
unfolding available_pool
drawn-IsFresh m id class cards rest p = stale-IsFresh m id class cards (
    All-append_left _ cards rest (
      All-Perm (stale m id class) (available_pool m.cards class id) (cards ++ rest) p (
        fresh-keep (or_else (get m.cards.picked id) []) (or_else (get m.cards.played id) [])
          (get_class_pool class) (get_class_pool class) (All-includes (get_class_pool class)))))

-- An offer of three fresh cards, which is the player's hand from then on.
pub record Dealt (id : Str) (fresh : CardId → Type 0) (pool : List CardId)
    (p : Machine × Result (List CardId)) : Type 0 where
  pub cards : List CardId
  pub rest : List CardId
  pub returned : p.1 ≡ ok cards
  pub size : length cards ≡ 3
  pub split : Perm pool (cards ++ rest)
  pub all_fresh : All fresh cards
  pub hand : hand_of p.0.cards id ≡ cards

give_offer-Dealt :
    (id : Str) (round_no : ℕ) (seed : Str) (fresh : CardId → Type 0) (pool ids rest : List CardId)
    (m : Machine)
    → Perm pool (ids ++ rest)
    → All fresh ids
    → length ids ≡ 3
    → Dealt id fresh pool (give_offer id round_no seed ids m)
unfolding give_offer log_event
give_offer-Dealt id round_no seed fresh pool ids rest m p f n =
    rw ((nat_beq_iff (length ids) 3).1 n, give_offer)
      (record {
        cards = ids;
        rest = rest;
        returned = refl;
        size = n;
        split = p;
        all_fresh = f;
        hand = ap (λ o. or_else o []) (get-set_self m.cards.hands id ids);
      })

give_offer-small :
    (id : Str) (round_no : ℕ) (seed : Str) (ids : List CardId) (m : Machine)
    → length ids < 3
    → give_offer id round_no seed ids m ≡ (m, err wrong_offer_size)
unfolding give_offer
give_offer-small id round_no seed ids m h = rw (other (length ids) h, give_offer) refl
  where
    other : (n : ℕ) → n < 3 → nat_beq n 3 ≡ false
    other n h = ground arith

pick_offer-given :
    (id : Str) (round_no : ℕ) (seed : Str) (class : ClassId) (d : SamplingResult) (m : Machine)
    → get m.cards.classes id ≡ some class
    → sample_offer class seed (available_pool m.cards class id) ≡ ok d
    → pick_offer id round_no seed m ≡ give_offer id round_no seed d.cards m
unfolding pick_offer offered
pick_offer-given id round_no seed class d m e f = rw (e, pick_offer) (rw f)

-- A player with a class is offered three cards, each of the class and neither picked nor played by the player,
-- where three are left; they are the hand then. Where fewer are left the call throws and
-- changes nothing.
pub pick_offer-Dealt :
    (id : Str) (round_no : ℕ) (seed : Str) (class : ClassId) (m : Machine)
    → get m.cards.classes id ≡ some class
    → let pool = available_pool m.cards class id in
      ((length pool < 3) × (pick_offer id round_no seed m ≡ (m, err wrong_offer_size)))
      ⊎ Dealt id (IsFresh m id class) pool (pick_offer id round_no seed m)
pick_offer-Dealt id round_no seed class m e =
    let pool = available_pool m.cards class id in
    let (d, rest, f, split, size) = sample_offer-total class seed pool in
    let given = pick_offer-given id round_no seed class d m e f in
    elim (Bool-cases (ltb (length pool) 3)) [
      | inl h ↦ inl (
        ltb→lt _ _ h,
        given ∙ give_offer-small id round_no seed d.cards m (omega (arith, size, ltb→lt _ _ h)),
      )
      | inr h ↦ inr (
          subst (Dealt id (IsFresh m id class) pool) (sym given) (
            give_offer-Dealt id round_no seed (IsFresh m id class) pool d.cards rest m split
              (drawn-IsFresh m id class d.cards rest split) (size ∙ three (length pool) h)))
    ]
  where
    three : (n : ℕ) → ltb n 3 ≡ false → min 3 n ≡ 3
    three n h = ground arith
