-- ===== src/Match/Codec/Sound.antt =====
-- What holds of every stored match that is accepted (packages/game-core/src/match-state.codec.ts),
-- whoever wrote it.
use the_arena_of.Prelude.{
  subst, ℕ, ◌≤◌, ◌≡◌, ◌≢◌, refl, Bool, true, false, not, ◌&&◌, List, [], ◌∷◌, Option, none, some,
  if◌then◌else◌, ltb, ◌==◌, list_eq, nat_eq, includes, Distinct, arith, Bool-cases, inl, inr,
}
use the_arena_of.Text.{Str}
use the_arena_of.Errors.{
  before_epoch, ◌>>=◌, Result, err, ok->>=, ok, unreadable, end_precedes_start, phase_end_mismatch,
}
use the_arena_of.Match.State.{
  MatchStatus, round_active, round_result, status_eq, MatchState, listed, unavailable, RoundState,
}
use the_arena_of.Match.Codec.{Json, Value, absent, null, other, boolean, number, text, texts}
use the_arena_of.Match.Codec.Decode.{
  has_duplicate, deserialize_starting_players, DecodedMatch, deserialize_match, decode_match_state,
  starts_before_epoch, decode_current_round, decode_round, validate_match_timing,
  validate_round_timing, round_start, round_end, timing_is, result_start,
}
use the_arena_of.Match.Codec.Shape.{Version, ShapedRound, Timings, parse_match, is_v2}
use the_arena_of.Match.Codec.Fields.{Starters}

ok_inj {ℓ} : {A : Type ℓ} (a b : A) → ok a ≡ ok b → a ≡ b
ok_inj a b h = cc

has_duplicate_sound : (ids : List Str) → has_duplicate ids ≡ false → Distinct ids
has_duplicate_sound [] h = tt
has_duplicate_sound (id ∷ ids) h = elim (Bool-cases (includes ids id)) [
  | inl y ↦ cc
  | inr n ↦ (n, has_duplicate_sound ids (ground (arith, h, n)))
]

starters : (v : Value) → Starters (deserialize_starting_players v)
starters absent = tt
starters null = tt
starters other = tt
starters (boolean b) = tt
starters (number n) = tt
starters (text s) = tt
starters (texts ids) = listed_or (has_duplicate ids) refl
  where
    listed_or :
        (b : Bool) → has_duplicate ids ≡ b → Starters (if b then unavailable else listed ids)
    listed_or true h = tt
    listed_or false h = has_duplicate_sound ids h

-- The times of an accepted round.
times_in_order :
    (v : Version) (s : MatchState) (t : Timings) (started ends : Option ℕ) (times : ℕ × ℕ)
    → validate_round_timing v s t started ends ≡ ok times
    → times.0 ≤ times.1
times_in_order v s t none ends times h = cc
times_in_order v s t (some started) none times h = cc
times_in_order v s t (some started) (some ends) times h =
    checked (ltb ends started)
      (is_v2 v && s.status == round_active && not (timing_is t.phase_ends_at ends)) refl h
  where
    checked :
        (late off : Bool)
        → ltb ends started ≡ late
        → (if late
            then err (unreadable end_precedes_start)
            else if off
            then err (unreadable phase_end_mismatch)
            else ok (started, ends))
          ≡ ok times
        → times.0 ≤ times.1
    checked true off e h = cc
    checked false true e h = cc
    checked false false e h =
        let same : (started, ends) ≡ times = ok_inj (started, ends) times h in
        subst (λ (p : ℕ × ℕ). p.0 ≤ p.1) same (ground (arith, e))

-- The round of a read match: it does not end before it starts, it has no answer key, and its starters
-- are distinct where they are known.
abbrev pub RoundSound : Option RoundState → Type 0
RoundSound none = Unit
RoundSound (some r) =
    (r.started_at ≤ r.ends_at) × (r.correct_answer ≡ none) × Starters r.starting_players

decode_current_round-RoundSound :
    (round : Option ShapedRound) (v : Version) (s : MatchState) (t : Timings)
    (read : Option RoundState)
    → decode_current_round round v s t ≡ ok read
    → RoundSound read
unfolding decode_current_round
decode_current_round-RoundSound none v s t read h = subst RoundSound (ok_inj none read h) tt
decode_current_round-RoundSound (some r) v s t read h = by_start (starts_before_epoch s t) h
  where
    checked : Result (Option RoundState)
    checked =
        validate_round_timing v s t (round_start s t) (round_end s t)
        >>= (λ times. ok (some (decode_round r times)))

    by_start : (b : Bool) → (if b then err before_epoch else checked) ≡ ok read → RoundSound read
    by_start true h = cc
    by_start false h =
        let times = ok->>= (validate_round_timing v s t (round_start s t) (round_end s t)) _ h in
        subst RoundSound (ok_inj (some (decode_round r times.0)) read times.2) (
          times_in_order v s t (round_start s t) (round_end s t) times.0 times.1,
          refl,
          starters r.starting_players,
        )

-- Only the result phase has a start.
result_start-other :
    (status : MatchStatus) (t : Timings) → status ≢ round_result → result_start status t ≡ none
result_start-other status t h = elim (Bool-cases (status == round_result)) [
  | inl y ↦ absurd (h ((status_eq.beq_iff status round_result).0 y))
  | inr n ↦ rw n refl
]

-- Whatever text is read, if it is accepted: outside the result phase the result phase's start is unset;
-- a current round does not end before it starts, has no answer key, and its known starters are
-- distinct.
pub deserialize_match_sound {ℓ} :
    {T : Type ℓ} (json : Json T) (blob : T) (d : DecodedMatch)
    → deserialize_match json blob ≡ ok d
    → (d.state.status ≢ round_result → d.state.round_result_started_at ≡ none)
      × RoundSound d.current_round
unfolding deserialize_match decode_match_state
deserialize_match_sound json blob d h =
    let p = ok->>= (parse_match (json.parse blob)) _ h in
    let t = ok->>= (validate_match_timing p.0) _ p.2 in
    let r =
      ok->>= (decode_current_round p.0.current_round p.0.version (decode_match_state p.0 t.0) t.0) _
        t.2 in
    let e = ok_inj _ d r.2 in
    subst
      (λ (x : DecodedMatch).
        (x.state.status ≢ round_result → x.state.round_result_started_at ≡ none)
        × RoundSound x.current_round)
      e
      (
        λ other. result_start-other p.0.state.status t.0 other,
        decode_current_round-RoundSound p.0.current_round p.0.version (decode_match_state p.0 t.0)
            t.0 r.0 r.1,
      )
