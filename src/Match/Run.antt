-- ===== src/Match/Run.antt =====
-- The public operations of `MatchStateMachine` that change its state, as commands; a match is a
-- sequence of them, in any order and with any arguments. Readers change nothing and are left out.
pub mod Untouched
pub mod Stays
pub mod Legal
pub mod Anchored
use the_arena_of.Prelude.{ℕ, List, [], ◌∷◌, Option}
use the_arena_of.Text.{Str}
use the_arena_of.Cards.Defs.{CardId, CardEffect}
use the_arena_of.Match.State.{MatchStatus, Machine}
use the_arena_of.Match.Phase.{transition}
use the_arena_of.Match.Round.{Question, start_round, submit_answer}
use the_arena_of.Match.Evaluate.{evaluate_round, attach_correct_answer}
use the_arena_of.Match.Winner.{determine_winner, finish_match, disconnect_player, reconnect_player}
use the_arena_of.Match.Topics.{init_topic_voting, vote_ban_topic, resolve_topic_voting}
use the_arena_of.Match.CardPlay.{class_assignment, pick_offer, pick_card, play_card}

pub data Command : Type 0 where
  transits : MatchStatus → Command
  starts_round : Question → Option ℕ → Command
  submits : Str → Str → ℕ → Option Str → Command
  evaluates : Command
  attaches : Str → Command
  determines : Command
  finishes : Command
  disconnects : Str → Command
  reconnects : Str → Command
  opens_voting : Option (List Str) → Option ℕ → Command
  votes : Str → Str → Option Str → Command
  closes_voting : ℕ → Command
  assigns_classes : List Str → Str → Command
  offers : Str → ℕ → Str → Command
  picks : Str → CardId → ℕ → Option Str → Option Str → Command
  plays : Str → CardId → ℕ → CardEffect → List Str → ℕ → Option Str → Option Str → Command

-- The machine after a call, whether it returned or threw.
unfoldable pub step : Command → Machine → Machine
step (transits to) m = (transition to m).0
step (starts_round q d) m = (start_round q d m).0
step (submits id a t s) m = (submit_answer id a t s m).0
step evaluates m = (evaluate_round m).0
step (attaches a) m = attach_correct_answer a m
step determines m = (determine_winner m).0
step finishes m = finish_match m
step (disconnects id) m = disconnect_player id m
step (reconnects id) m = reconnect_player id m
step (opens_voting ts d) m = (init_topic_voting ts d m).0
step (votes id t e) m = (vote_ban_topic id t e m).0
step (closes_voting n) m = (resolve_topic_voting n m).0
step (assigns_classes ids s) m = (class_assignment ids s m).0
step (offers id n s) m = (pick_offer id n s m).0
step (picks id c n e k) m = (pick_card id c n e k m).0
step (plays id c n f ts t e k) m = (play_card id c n f ts t e k m).0

unfoldable pub run : List Command → Machine → Machine
run [] m = m
run (c ∷ cs) m = run cs (step c m)
