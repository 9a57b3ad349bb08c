-- ===== src/Match/Synced.antt =====
-- The event log of packages/game-core/src/match-state-machine.ts, its numbers and its counter, and the
-- card state beside it.
pub mod Rounds
pub mod Drafts
pub mod Plays
pub mod Runs
use the_arena_of.Prelude.{
  ℕ, suc, ◌+◌, ◌≡◌, refl, sym, ap, subst, ◌∙◌, List, [], ◌∷◌, ◌++◌, length, length-append,
  foldl-append, arith, All, false,
}
use the_arena_of.Text.{Str, is_empty}
use the_arena_of.Match.State.{
  second_chance_granted, second_chance_consumed, Payload, Event, CardState, Machine, Host,
  empty_cards, PlayerInfo,
}
use the_arena_of.Match.Log.{new_machine, log_event}
use the_arena_of.Match.Rehydrate.{rehydrate_event, rehydrate_card_state}

-- The numbers of a log that starts behind `n`.
abbrev pub Numbered : ℕ → List Event → Type 0
Numbered n [] = Unit {0}
Numbered n (e ∷ es) = (e.seq_no ≡ suc n) × Numbered (suc n) es

-- A second chance is granted to, and consumed by, a player with an identifier that is not empty. The replay
-- skips the other ones, which the live calls do not.
abbrev pub NamesPlayer : Payload → Type 0
NamesPlayer (second_chance_granted id round_no) = is_empty id ≡ false
NamesPlayer (second_chance_consumed id round_no) = is_empty id ≡ false
NamesPlayer _ = Unit {0}

abbrev pub Named : List Event → Type 0
Named log = All (λ e. NamesPlayer e.payload) log

pub record Synced (log : List Event) (seq : ℕ) (cards : CardState) : Type 0 where
  pub numbered : Numbered 0 log
  pub counted : seq ≡ length log
  pub derived : Named log → cards ≡ rehydrate_card_state log

abbrev pub IsSynced : Machine → Type 0
IsSynced m = Synced m.event_log m.event_seq m.cards

Numbered-snoc :
    (n : ℕ) (log : List Event) (e : Event)
    → Numbered n log
    → e.seq_no ≡ suc (n + length log)
    → Numbered n (log ++ e ∷ [])
Numbered-snoc n [] e h p = (omega arith, tt)
Numbered-snoc n (x ∷ xs) e h p = (h.0, Numbered-snoc (suc n) xs e h.1 (omega arith))

Named-init :
    (log : List Event) (e : Event) → Named (log ++ e ∷ []) → Named log × NamesPlayer e.payload
Named-init [] e h = (tt, h.0)
Named-init (x ∷ log) e h = let rest = Named-init log e h.1 in ((h.0, rest.0), rest.1)

-- One more event, and the card state that it makes.
pub Synced-snoc :
    {log : List Event} {seq : ℕ} {cards later : CardState} (e : Event)
    → e.seq_no ≡ suc seq
    → Synced log seq cards
    → (NamesPlayer e.payload → rehydrate_event cards e ≡ later)
    → Synced (log ++ e ∷ []) (suc seq) later
unfolding rehydrate_card_state
Synced-snoc {log} {seq} {cards} e p s made = record {
  numbered = Numbered-snoc 0 log e s.numbered (omega arith);
  counted = omega (arith, length-append log (e ∷ []));
  derived = λ h.
      let named = Named-init log e h in
      sym (made named.1)
      ∙ ap (λ c. rehydrate_event c e) (s.derived named.0)
      ∙ sym (foldl-append rehydrate_event empty_cards log (e ∷ []));
}

-- A change outside the log and the cards, then an event that leaves the cards alone or makes them.
pub log_event-IsSynced :
    (p : Payload) (m : Machine) (cards : CardState)
    → IsSynced (record m { cards = cards })
    → (NamesPlayer p
        → rehydrate_event cards
            (record { payload = p; timestamp = m.host.clock m.reads; seq_no = suc m.event_seq })
          ≡ m.cards)
    → IsSynced (log_event p m)
unfolding log_event
log_event-IsSynced p m cards s e =
    Synced-snoc (record { payload = p; timestamp = m.host.clock m.reads; seq_no = suc m.event_seq })
      refl s e

-- An event, and the card state that it makes in place of the old one.
pub logged-IsSynced :
    (p : Payload) (m : Machine) (cards : CardState)
    → IsSynced m
    → (NamesPlayer p
        → rehydrate_event m.cards
            (record { payload = p; timestamp = m.host.clock m.reads; seq_no = suc m.event_seq })
          ≡ cards)
    → IsSynced (record (log_event p m) { cards = cards })
unfolding log_event
logged-IsSynced p m cards s e =
    Synced-snoc (record { payload = p; timestamp = m.host.clock m.reads; seq_no = suc m.event_seq })
      refl s e

pub new_machine-IsSynced :
    (host : Host) (id room : Str) (players : List PlayerInfo)
    → IsSynced (new_machine host id room players)
unfolding new_machine rehydrate_card_state
new_machine-IsSynced host id room players = record {
  numbered = tt;
  counted = refl;
  derived = λ _. refl;
}
