-- ===== src/Match/Winner/Crown.antt =====
-- Who wins: `determineWinner` and `finishMatch` of packages/game-core/src/match-state-machine.ts.
use the_arena_of.Prelude.{
  ℕ, false, ◌==◌, ◌≡◌, refl, ap, ◌∙◌, true, List, [], ◌∷◌, Option, none, some, inl, inr, Bool-cases,
  includes, All, list_eq, nat_eq, ==_refl, arith, subst,
}
use the_arena_of.Prelude.Dict.{Dict, get, has, get-modify_self, get-modify_ne, modify}
use the_arena_of.Text.{Str}
use the_arena_of.Rules.TieBreak.{known_ids}
use the_arena_of.Rules.TieBreak.Best.{NoWorse, resolve_tie_break-best}
use the_arena_of.Match.State.{PlayerStatus, PlayerInfo, Machine}
use the_arena_of.Match.Log.{now, log_event}
use the_arena_of.Match.Run.Untouched.{Core, determine_winner-Untouched}
use the_arena_of.Match.Winner.{
  break_tie, tie_eliminated, determine_from, determine_winner, crown, promote, finish_match,
}

-- Those who can win: the survivors, or the eliminated players where nobody survives.
abbrev contenders_of : List Str → List Str → List Str
contenders_of [] eliminated = eliminated
contenders_of (id ∷ ids) eliminated = id ∷ ids

abbrev pub contenders : Machine → List Str
contenders m = contenders_of m.state.surviving_player_ids m.state.eliminated_player_ids

-- One of them, whom no known one of them beats.
abbrev pub IsBest : Dict Str PlayerInfo → List Str → Str → Type 0
IsBest players ids w = (includes ids w ≡ true) × All (NoWorse players w) (known_ids players ids)

break_tie-IsBest :
    (ids : List Str) (m : Machine) (w : Str)
    → (break_tie ids m).1 ≡ some w
    → IsBest m.state.players ids w
unfolding break_tie
break_tie-IsBest [] m w h = cc
break_tie-IsBest (id ∷ ids) m w h =
    let b = resolve_tie_break-best (id ∷ ids) m.state.players m.state.id w h in (b.0, b.2)

determine_from-IsBest :
    (survivors eliminated : List Str) (m : Machine) (w : Str)
    → (determine_from survivors eliminated m).1 ≡ some w
    → IsBest m.state.players (contenders_of survivors eliminated) w
unfolding determine_from tie_eliminated
determine_from-IsBest [] [] m w h = cc
determine_from-IsBest [] (id ∷ ids) m w h = break_tie-IsBest (id ∷ ids) m w h
determine_from-IsBest (id ∷ []) eliminated m w h =
    let id≡w : id ≡ w = cc in
    subst (IsBest m.state.players (id ∷ [])) id≡w (rw (==_refl id), alone m.state.players)
  where
    alone : (players : Dict Str PlayerInfo) → All (NoWorse players id) (known_ids players (id ∷ []))
    alone players = elim (Bool-cases (has players id)) [
      | inl e ↦ rw (e, known_ids) ((omega arith, λ p. omega arith), tt)
      | inr e ↦ rw (e, known_ids) tt
    ]
determine_from-IsBest (id ∷ next ∷ ids) eliminated m w h = break_tie-IsBest (id ∷ next ∷ ids) m w h

break_tie-state : (ids : List Str) (m : Machine) → (break_tie ids m).0.state ≡ m.state
unfolding break_tie log_event
break_tie-state [] m = refl
break_tie-state (id ∷ ids) m = refl

pub determine_from-state :
    (survivors eliminated : List Str) (m : Machine)
    → (determine_from survivors eliminated m).0.state ≡ m.state
unfolding determine_from tie_eliminated
determine_from-state [] [] m = refl
determine_from-state [] (id ∷ ids) m = break_tie-state (id ∷ ids) m
determine_from-state (id ∷ []) eliminated m = refl
determine_from-state (id ∷ next ∷ ids) eliminated m = break_tie-state (id ∷ next ∷ ids) m

-- What the end of a match leaves when `w` won: the winner's status is WINNER and the rest of that record stays,
-- every other player stays, and of the rest of the state only the winner and the end are set.
pub record Crowned (m : Machine) (w : Str) (m' : Machine) : Type 0 where
  pub winner :
      (p : PlayerInfo)
      → get m.state.players w ≡ some p
      → get m'.state.players w ≡ some (record p { status = PlayerStatus.winner })
  pub others : (id : Str) → (w == id) ≡ false → get m'.state.players id ≡ get m.state.players id
  pub ended : ℕ
  pub rest :
      m'.state
      ≡ record (m.state) { players = m'.state.players; winner_id = some w; ended_at = some ended }
  pub round : m'.current_round ≡ m.current_round

promote-get :
    (o : Option Str) (w : Str) (players : Dict Str PlayerInfo) (p : PlayerInfo)
    → o ≡ some w
    → get players w ≡ some p
    → get (promote o players) w ≡ some (record p { status = PlayerStatus.winner })
promote-get none w players p e f = cc
promote-get (some v) w players p e f =
    let w≡v : w ≡ v = cc in
    subst (λ x. get (modify players x crown) w ≡ some (record p { status = PlayerStatus.winner }))
      w≡v (get-modify_self players w crown f)

promote-others :
    (o : Option Str) (w id : Str) (players : Dict Str PlayerInfo)
    → o ≡ some w
    → (w == id) ≡ false
    → get (promote o players) id ≡ get players id
promote-others none w id players e h = refl
promote-others (some v) w id players e h =
    let w≡v : w ≡ v = cc in get-modify_ne players v id crown (subst (λ x. (x == id) ≡ false) w≡v h)

-- The winner that the end of a match records is a survivor, or an eliminated player where nobody
-- survived; no known player among those was faster in total, or as fast with more correct answers.
-- The winner's status becomes WINNER; the rest of that record, every other player, the round and the rest of
-- the state stay, but for the recorded winner and the time of the end.
pub finish_match-IsBest :
    (m : Machine) (w : Str)
    → (finish_match m).state.winner_id ≡ some w
    → IsBest m.state.players (contenders m) w × Crowned m w (finish_match m)
unfolding finish_match determine_winner log_event
finish_match-IsBest m w h = (
  determine_from-IsBest survivors eliminated m w h,
  record {
    winner = λ p e.
        promote-get (determine_winner m).1 w (determine_winner m).0.state.players p h
          (ap (λ s. get s.players w) same ∙ e);
    others = λ id d.
        promote-others (determine_winner m).1 w id (determine_winner m).0.state.players h d
        ∙ ap (λ s. get s.players id) same;
    ended = now (determine_winner m).0;
    rest = λ i. record (same i) {
      players = promote (determine_winner m).1 (determine_winner m).0.state.players;
      winner_id = h i;
      ended_at = some (now (determine_winner m).0);
    };
    round = ap (λ (c : Core). c.2) (determine_winner-Untouched m);
  },
)
  where
    survivors : List Str
    survivors = m.state.surviving_player_ids

    eliminated : List Str
    eliminated = m.state.eliminated_player_ids

    same : (determine_winner m).0.state ≡ m.state
    same = determine_from-state survivors eliminated m
