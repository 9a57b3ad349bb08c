-- ===== src/Match/Synced/Runs.antt =====
-- The log and the cards over a sequence of operations of packages/game-core/src/match-state-machine.ts,
-- for recovery and for a client's cursor.
use the_arena_of.Text.{Str}
use the_arena_of.Match.State.{Event, Host, Machine, PlayerInfo}
use the_arena_of.Match.Log.{last_seq, new_machine, get_head_seq_no, get_delta, to_wire}
use the_arena_of.Match.Rehydrate.{max_seq, restore, rehydrate_card_state}
use the_arena_of.Match.Run.{
  Command, transits, starts_round, submits, evaluates, attaches, determines, finishes, disconnects,
  reconnects, opens_voting, votes, closes_voting, assigns_classes, offers, picks, plays, step, run,
}
use the_arena_of.Match.Synced.{sym, ap, Numbered, Named, IsSynced, new_machine-IsSynced}
use the_arena_of.Match.Synced.Rounds
use the_arena_of.Match.Synced.Drafts
use the_arena_of.Match.Synced.Plays
use the_arena_of.Prelude.{
  drop-length, lt→ltb, not_lt→ltb, ◌∙◌, ◌≤◌, ℕ, zero, suc, ◌+◌, ◌≡◌, refl, List, [], ◌∷◌, length,
  drop, map, false, max, keep_if, ltb, arith,
}

pub step-IsSynced : (c : Command) (m : Machine) → IsSynced m → IsSynced (step c m)
unfolding step
step-IsSynced (transits to) m s = Rounds.transition-IsSynced to m s
step-IsSynced (starts_round q d) m s = Rounds.start_round-IsSynced q d m s
step-IsSynced (submits id a t i) m s = Rounds.submit_answer-IsSynced id a t i m s
step-IsSynced evaluates m s = Rounds.evaluate_round-IsSynced m s
step-IsSynced (attaches a) m s = Rounds.attach_correct_answer-IsSynced a m s
step-IsSynced determines m s = Rounds.determine_winner-IsSynced m s
step-IsSynced finishes m s = Rounds.finish_match-IsSynced m s
step-IsSynced (disconnects id) m s = Drafts.disconnect_player-IsSynced id m s
step-IsSynced (reconnects id) m s = Drafts.reconnect_player-IsSynced id m s
step-IsSynced (opens_voting ts d) m s = Drafts.init_topic_voting-IsSynced ts d m s
step-IsSynced (votes id t e) m s = Drafts.vote_ban_topic-IsSynced id t e m s
step-IsSynced (closes_voting n) m s = Drafts.resolve_topic_voting-IsSynced n m s
step-IsSynced (assigns_classes ids x) m s = Plays.class_assignment-IsSynced ids x m s
step-IsSynced (offers id n x) m s = Plays.pick_offer-IsSynced id n x m s
step-IsSynced (picks id c n e k) m s = Plays.pick_card-IsSynced id c n e k m s
step-IsSynced (plays id c n f ts t e k) m s = Plays.play_card-IsSynced id c n f ts t e k m s

pub run-IsSynced : (cs : List Command) (m : Machine) → IsSynced m → IsSynced (run cs m)
unfolding run
run-IsSynced [] m s = s
run-IsSynced (c ∷ cs) m s = run-IsSynced cs (step c m) (step-IsSynced c m s)

module _ (host : Host) (id room : Str) (players : List PlayerInfo) (cs : List Command) where
  run_new-IsSynced : IsSynced (run cs (new_machine host id room players))
  run_new-IsSynced =
      run-IsSynced cs (new_machine host id room players) (new_machine-IsSynced host id room players)

  -- After any sequence of calls on a new match in which no second chance was logged for an empty player
  -- identifier: the events are numbered 1, 2, 3, … without a gap, the counter is the number of the last
  -- one, and the class and card state is the one that a replay of the event log gives.
  pub run_new-Synced :
      Named (run cs (new_machine host id room players)).event_log
      → let m = run cs (new_machine host id room players) in
        Numbered 0 m.event_log
        × (m.event_seq ≡ length m.event_log)
        × (m.cards ≡ rehydrate_card_state m.event_log)
  run_new-Synced named =
      (run_new-IsSynced.numbered, run_new-IsSynced.counted, run_new-IsSynced.derived named)

max_seq-Numbered : (n : ℕ) (log : List Event) → Numbered n log → max_seq n log ≡ n + length log
unfolding max_seq
max_seq-Numbered n [] h = omega arith
max_seq-Numbered n (e ∷ es) h =
    rw (h.0) (rw (max_suc n) (omega (arith, max_seq-Numbered (suc n) es h.1)))
  where
    max_suc : (n : ℕ) → max (suc n) n ≡ suc n
    max_suc n = omega arith

-- The machine rebuilt from the state, the round and the log of a match, after any calls on a new match, is
-- that match but for the host, the clock, the frozen array and the cards, which are replayed.
pub restore-replayed :
    (host other : Host) (id room : Str) (players : List PlayerInfo) (cs : List Command)
    → let m = run cs (new_machine host id room players) in
      restore other m.state m.current_round m.event_log ≡ record m {
        host = other;
        reads = 0;
        eliminated_frozen = false;
        cards = rehydrate_card_state m.event_log;
      }
unfolding restore
restore-replayed host other id room players cs = λ i. record {
  host = other;
  reads = 0;
  state = m.state;
  current_round = m.current_round;
  eliminated_frozen = false;
  event_log = m.event_log;
  event_seq = numbers i;
  cards = rehydrate_card_state m.event_log;
}
  where
    m : Machine
    m = run cs (new_machine host id room players)

    numbers : max_seq 0 m.event_log ≡ m.event_seq
    numbers = omega (
      arith,
      max_seq-Numbered 0 m.event_log (run_new-IsSynced host id room players cs).numbered,
      (run_new-IsSynced host id room players cs).counted,
    )

-- Recovery is exact: the machine rebuilt from the state, the round and the log of a match, after any
-- calls on a new match, is that match, with the host of the new process, its clock unread, and the array
-- of the eliminated players not frozen. No second chance was logged for an empty player identifier.
pub restore-run :
    (host other : Host) (id room : Str) (players : List PlayerInfo) (cs : List Command)
    → Named (run cs (new_machine host id room players)).event_log
    → let m = run cs (new_machine host id room players) in
      restore other m.state m.current_round m.event_log
      ≡ record m { host = other; reads = 0; eliminated_frozen = false }
restore-run host other id room players cs named =
    let m = run cs (new_machine host id room players) in
    restore-replayed host other id room players cs
    ∙ ap (λ c. record m { host = other; reads = 0; eliminated_frozen = false; cards = c })
        (sym ((run_new-IsSynced host id room players cs).derived named))

kept_all :
    (c n : ℕ) (log : List Event) → c ≤ n → Numbered n log → keep_if (λ e. ltb c e.seq_no) log ≡ log
kept_all c n [] h num = refl
kept_all c n (e ∷ es) h num =
    rw (lt→ltb c e.seq_no (omega arith)) (ap (◌∷◌ e) (kept_all c (suc n) es (omega arith) num.1))

kept_drop :
    (c n k : ℕ) (log : List Event)
    → c ≡ n + k
    → Numbered n log
    → keep_if (λ e. ltb c e.seq_no) log ≡ drop k log
kept_drop c n zero log h num = kept_all c n log (omega arith) num
kept_drop c n (suc k) [] h num = refl
kept_drop c n (suc k) (e ∷ es) h num =
    rw (not_lt→ltb c e.seq_no (omega arith)) (kept_drop c (suc n) k es (omega arith) num.1)

-- A client that has seen the first `k` events of a match gets the others, all of them and in order,
-- whatever was called on the new match.
pub get_delta-drop :
    (host : Host) (id room : Str) (players : List PlayerInfo) (cs : List Command) (k : ℕ)
    → let m = run cs (new_machine host id room players) in
      get_delta m k ≡ map (to_wire m.state.id) (drop k m.event_log)
unfolding get_delta
get_delta-drop host id room players cs k =
    let m = run cs (new_machine host id room players) in
    ap (map (to_wire m.state.id)) (
      kept_drop k 0 k m.event_log (omega arith) (run_new-IsSynced host id room players cs).numbered)

last_seq-Numbered : (n : ℕ) (log : List Event) → Numbered n log → last_seq n log ≡ n + length log
unfolding last_seq
last_seq-Numbered n [] h = omega arith
last_seq-Numbered n (e ∷ es) h = rw (h.0) (omega (arith, last_seq-Numbered (suc n) es h.1))

-- The head cursor of a match is the number of its events; a client there gets nothing more.
get_head-length :
    (host : Host) (id room : Str) (players : List PlayerInfo) (cs : List Command)
    → let m = run cs (new_machine host id room players) in
      (get_head_seq_no m ≡ length m.event_log) × (get_delta m (get_head_seq_no m) ≡ [])
unfolding get_head_seq_no
get_head-length host id room players cs =
    let m = run cs (new_machine host id room players) in
    let e : get_head_seq_no m ≡ length m.event_log =
      last_seq-Numbered 0 m.event_log (run_new-IsSynced host id room players cs).numbered
      ∙ omega arith in
    (
      e,
      get_delta-drop host id room players cs (get_head_seq_no m)
          ∙ ap (map (to_wire m.state.id))
              (ap (λ n. drop n m.event_log) e ∙ drop-length m.event_log),
    )
