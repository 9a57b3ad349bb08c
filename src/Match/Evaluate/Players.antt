-- ===== src/Match/Evaluate/Players.antt =====
-- What `evaluateRound` of packages/game-core/src/match-state-machine.ts does to each player, and who remains.
use the_arena_of.Prelude.{
  ◌≡◌, refl, ap, subst, sym, ◌∙◌, Bool, true, false, not, List, [], ◌∷◌, Option, none, some, inl,
  inr, Bool-cases, if◌then◌else◌, keep_if, keep_if-cong, includes, includes-keep_if, All, All-map,
  All-includes, Distinct, list_eq, nat_eq, ◌==◌, suc, ◌+◌,
}
use the_arena_of.Prelude.Dict.{Dict, get, get-modify_self, modify, get-modify_ne}
use the_arena_of.Text.{Str, Locale}
use the_arena_of.Rules.Elimination.{survives, is_right, eliminations_for_round}
use the_arena_of.Rules.Scoring.{compute_round_score, floor_total}
use the_arena_of.Match.State.{PlayerStatus, PlayerInfo, AnswerState, RoundState}
use the_arena_of.Match.Evaluate.{eliminate, reward, settle_player, settle_players}

module _ (l : Locale) (round : RoundState) where
  -- What a round does to one of its players.
  abbrev pub outcome : Str → PlayerInfo → PlayerInfo
  outcome id p = elim (get round.answers id) [
    | none ↦ record p { status = PlayerStatus.eliminated }
    | some a ↦
        if is_right l round a
        then record p {
          correct_answers = suc p.correct_answers;
          total_response_time_ms = p.total_response_time_ms + a.response_time_ms;
          score = p.score + floor_total (compute_round_score a.response_time_ms);
        }
        else record p { status = PlayerStatus.eliminated }
  ]

module _ (l : Locale) (round : RoundState) (starting : List Str) where
  -- The players without a right answer, in a list of those who are out.
  pub out_iff :
      All
        (λ id. includes (eliminations_for_round l round starting) id ≡ not (survives l round id))
        starting
  unfolding eliminations_for_round
  out_iff =
      All-map _ (λ id h. includes-keep_if (λ x. not (survives l round x)) starting id h) starting
        (All-includes starting)

  not-not : (b : Bool) → not (not b) ≡ b
  not-not true = refl
  not-not false = refl

  -- Those who remain are those with a right answer.
  pub alive-survives :
      keep_if (λ id. not (includes (eliminations_for_round l round starting) id)) starting
      ≡ keep_if (survives l round) starting
  alive-survives =
      keep_if-cong _ _ starting
        (All-map _ (λ id h. ap not h ∙ not-not (survives l round id)) starting out_iff)

module _ (l : Locale) (round : RoundState) (out : List Str) where
  abbrev Agrees : Str → Type 0
  Agrees id = includes out id ≡ not (survives l round id)

  settle_player_self :
      (id : Str) (players : Dict Str PlayerInfo) (p : PlayerInfo)
      → Agrees id
      → get players id ≡ some p
      → get (settle_player round out id players) id ≡ some (outcome l round id p)
  unfolding settle_player
  settle_player_self id players p h f = by_answer (get round.answers id) h
    where
      by_answer :
          (o : Option AnswerState)
          → includes out id ≡ not (elim o [ none ↦ false | some a ↦ is_right l round a ])
          → get
              (if includes out id
                then modify players id eliminate
                else elim o [ none ↦ players | some a ↦ modify players id (reward a) ])
              id
            ≡ some (elim o [
              | none ↦ eliminate p
              | some a ↦ if is_right l round a then reward a p else eliminate p
            ])
      by_answer none g = rw g (get-modify_self players id eliminate f)
      by_answer (some a) g = elim (Bool-cases (is_right l round a)) [
        | inl e ↦ rw (g, e) (get-modify_self players id (reward a) f)
        | inr e ↦ rw (g, e) (get-modify_self players id eliminate f)
      ]

  settle_player_other :
      (id j : Str) (players : Dict Str PlayerInfo)
      → (id == j) ≡ false
      → get (settle_player round out id players) j ≡ get players j
  unfolding settle_player
  settle_player_other id j players h = elim (Bool-cases (includes out id)) [
    | inl g ↦ rw g (get-modify_ne players id j eliminate h)
    | inr g ↦ rw g (by_answer (get round.answers id))
  ]
    where
      by_answer :
          (o : Option AnswerState)
          → get (elim o [ none ↦ players | some a ↦ modify players id (reward a) ]) j
            ≡ get players j
      by_answer none = refl
      by_answer (some a) = get-modify_ne players id j (reward a) h

  pub settle_players-get :
      (ids : List Str) (players : Dict Str PlayerInfo) (j : Str) (p : PlayerInfo)
      → Distinct ids
      → All Agrees ids
      → get players j ≡ some p
      → get (settle_players round out ids players) j
        ≡ some (if includes ids j then outcome l round j p else p)
  unfolding settle_players
  settle_players-get [] players j p d h f = f
  settle_players-get (id ∷ ids) players j p d h f = elim (Bool-cases (id == j)) [
    | inl g ↦
        let same_id = (list_eq.beq_iff id j).0 g in
        let later : includes ids j ≡ false = ap (includes ids) (sym same_id) ∙ d.0 in
        let now : get (settle_player round out id players) j ≡ some (outcome l round j p) =
          subst (λ i. get (settle_player round out i players) j ≡ some (outcome l round j p))
            (sym same_id) (settle_player_self j players p (subst Agrees same_id h.0) f) in
        rw (settle_players-get ids _ j (outcome l round j p) d.1 h.1 now) (rw (g, later))
    | inr g ↦
        rw (settle_players-get ids _ j p d.1 h.1 (settle_player_other id j players g ∙ f)) (rw g)
  ]
