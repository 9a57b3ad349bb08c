-- ===== src/Timers.antt =====
-- apps/api/src/modules/match/match-timer.registry.ts: what the game loop keeps in memory for each match.
-- A timer handle is a number, and a promise a value of any type.
pub mod Guards
pub mod Calls
pub mod Runs
use the_arena_of.Prelude.{
  ℕ, Bool, true, false, List, [], ◌∷◌, ◌++◌, Option, none, some, if◌then◌else◌, includes, ◌==◌,
  list_eq, nat_eq,
}
use the_arena_of.Prelude.Dict.{Dict, get, set, delete, has, or_else, add, discard}
use the_arena_of.Text.{Str}

-- The calls of `clearTimeout` are kept in the order they are made.
pub record Registry {ℓ} (P : Type ℓ) : Type ℓ where
  pub active_timers : Dict Str (List ℕ)
  pub used_question_ids : Dict Str (List Str)
  pub expected_answers : Dict Str ℕ
  pub ending_rounds : List Str
  pub finishing_matches : List Str
  pub finishing_promises : Dict Str P
  pub cancelled : List ℕ

module _ {ℓ} {P : Type ℓ} where
  abbrev pub new_registry : Registry P
  new_registry = record {
    active_timers = [];
    used_question_ids = [];
    expected_answers = [];
    ending_rounds = [];
    finishing_matches = [];
    finishing_promises = [];
    cancelled = [];
  }

  -- The set of a match, made when there is none.
  unfoldable pub ensure_match : Str → Registry P → Registry P
  ensure_match match_id r =
      if has r.active_timers match_id
      then r
      else record r { active_timers = set r.active_timers match_id [] }

  unfoldable pub add_timer : Str → ℕ → Registry P → Registry P
  unfolding ensure_match
  add_timer match_id timer r =
      let r' = ensure_match match_id r in
      record r' {
        active_timers =
            set r'.active_timers match_id (add (or_else (get r'.active_timers match_id) []) timer);
      }

  unfoldable pub clear_timers : Str → Registry P → Registry P
  clear_timers match_id r = elim (get r.active_timers match_id) [
    | none ↦ r
    | some timers ↦ record r {
      cancelled = r.cancelled ++ timers;
      active_timers = delete r.active_timers match_id;
    }
  ]

  unfoldable pub init_used_questions : Str → Registry P → Registry P
  init_used_questions match_id r = record r {
    used_question_ids = set r.used_question_ids match_id [];
  }

  unfoldable pub mark_question_used : Str → Str → Registry P → Registry P
  mark_question_used match_id question_id r = record r {
    used_question_ids =
        set r.used_question_ids match_id
          (add (or_else (get r.used_question_ids match_id) []) question_id);
  }

  unfoldable pub set_expected_answers : Str → ℕ → Registry P → Registry P
  set_expected_answers match_id count r = record r {
    expected_answers = set r.expected_answers match_id count;
  }

  unfoldable pub get_expected_answers : Str → Registry P → ℕ
  get_expected_answers match_id r = or_else (get r.expected_answers match_id) 0

  -- The guard of the end of a round: false when it is in flight.
  unfoldable pub begin_end_round : Str → Registry P → Registry P × Bool
  begin_end_round match_id r =
      if includes r.ending_rounds match_id
      then (r, false)
      else (record r { ending_rounds = add r.ending_rounds match_id }, true)

  unfoldable pub end_end_round : Str → Registry P → Registry P
  end_end_round match_id r = record r { ending_rounds = discard r.ending_rounds match_id }

  -- The guard of the end of a match.
  unfoldable pub begin_finish : Str → Registry P → Registry P × Bool
  begin_finish match_id r =
      if includes r.finishing_matches match_id
      then (r, false)
      else (record r { finishing_matches = add r.finishing_matches match_id }, true)

  unfoldable pub end_finish : Str → Registry P → Registry P
  end_finish match_id r = record r {
    finishing_matches = discard r.finishing_matches match_id;
    finishing_promises = delete r.finishing_promises match_id;
  }

  unfoldable pub register_finish_promise : Str → P → Registry P → Registry P
  register_finish_promise match_id promise r = record r {
    finishing_promises = set r.finishing_promises match_id promise;
  }

  -- `none` is the resolved promise.
  unfoldable pub await_finish : Str → Registry P → Option P
  await_finish match_id r = get r.finishing_promises match_id

  unfoldable pub dispose_match : Str → Registry P → Registry P
  unfolding clear_timers
  dispose_match match_id r =
      let r' = clear_timers match_id r in
      record r' {
        used_question_ids = delete r'.used_question_ids match_id;
        expected_answers = delete r'.expected_answers match_id;
      }
