-- ===== src/Lib.antt =====
-- The game core of an elimination quiz for up to a hundred players, packages/game-core/src with the
-- parts of packages/shared/src that it reads, and the leases by which the processes of the api server
-- share its matches. A match is an object that callers drive through public
-- methods; every change of its state is logged as a numbered event, a process that restarts rebuilds
-- the match from the stored state and the log, and clients catch up by the number they saw last.
--
-- The files and the code they are about:
--   Match (Match/State, Log, Phase, Round, Evaluate, Winner, Topics, CardPlay, Rehydrate, Run)
--     packages/game-core/src/match-state-machine.ts. `Machine` is the class's fields, one function per
--     method, named as the method is: transition, start_round, submit_answer, evaluate_round,
--     determine_winner, finish_match, disconnect_player, reconnect_player, init_topic_voting,
--     vote_ban_topic, resolve_topic_voting, class_assignment, pick_offer, pick_card, play_card. A method
--     that throws returns the machine as it is at the throw, with the error. Run has a command for each
--     method that changes the state; a match is a list of commands. State also has the types of
--     packages/shared/src/state.ts.
--   Match/Synced and its children: the log and the card state under each method and under sequences of
--     calls. Match/Run/Untouched, Match/Run/Stays, Match/Run/Legal and Match/Run/Anchored: the phase and
--     its times under sequences of calls. Match/Round/Answers, Match/Evaluate/Players and
--     Match/Evaluate/Outcomes, Match/Winner/Crown, Match/Winner/Presence, Match/Phase/Anchors,
--     Match/Topics/Guards, Match/Topics/Votes and Match/Topics/Opening, Match/CardPlay/Hands: single
--     methods.
--   Match/Codec (packages/game-core/src/match-state.codec.ts): the stored form and its writer; Codec/Shape
--     and Codec/Decode its reader, Codec/Maps and Codec/Fields the lemmas on its parts, Codec/Kept and
--     Codec/Storability what a match keeps that makes it storable, Codec/Trip,
--     Codec/Sound, Codec/Recovery and Codec/Handover the stored match. Match/Snapshot: getSnapshot.
--   Lease: the ownership of a match in Redis. Lease/Scripts has a function for each primitive of
--     apps/api/src/modules/redis/redis.lease.ts, Lease/Keys and Lease/Tombstone are about
--     apps/api/src/modules/match/match-ownership.store.ts. Lease/Cluster is a step relation: any process
--     calls any primitive, keys expire, other matches go on. Lease/Fencing, Lease/Takeover, Lease/Register
--     and Lease/Requeue: owners, takeovers, the stored state, the end of a match.
--   Timers (apps/api/src/modules/match/match-timer.registry.ts): the guards and timers of the game loop;
--     Timers/Guards the lemmas on a guard's set, Timers/Calls and Timers/Runs the calls in any order.
--   Cards/Validator (apps/api/src/modules/match/card-validator.ts), with Passed and Accepted below it.
--   Rules: the pure rules. Rules/Placements (elo-engine.ts and packages/shared/src/elo.ts),
--     Rules/Scoring (scoring.ts), Rules/Elimination (round-elimination.ts), Rules/TieBreak
--     (tie-break.ts), Rules/TopicVoting (topic-voting.ts; its children Bans and Tally), Rules/Classes
--     (class-engine.ts).
--   Cards: Cards/Defs and Cards/Catalog (packages/shared/src/cards.ts), Cards/Engine
--     (packages/game-core/src/card-engine.ts).
--   Prng, Prng/Sha256 (packages/game-core/src/prng.ts), Prng/Period on the generator's states.
--   Errors (packages/shared/src/error-codes.ts and the plain errors), Text (strings as UTF-16 code
--     units), Prelude (tests, lists, maps in insertion order, stable sorting), Tests (the source's own
--     vectors, and runs of a small match).
--
-- Conventions. Time is in milliseconds. `Date.now()` is a stream of answers that the machine reads in
-- the order of the calls, so nothing is assumed about the clock. A JavaScript Map or Set is a list in
-- insertion order. A float of the generator is its numerator over 2 ^ 32; scores are fractions over
-- their divisor, floored where the source floors. A response time is not negative, as in the source.
-- `trim`, `toLowerCase` and `toUpperCase` depend on the host's tables and are parameters (`Locale`).
-- The array of the eliminated players has a flag that says whether the log froze it. A stored round
-- whose start would be before the epoch is refused with an error of the model's own. The times that
-- placements compare are doubles, as the numbers that their bits spell.
-- The topic votes are a plain object in the source; keys of the object's prototype are left out.
--
-- Fuel. The retry loop of `sampleOffer` has 2 ^ 32 turns. The generator's state is a counter with an
-- odd step, so it meets every word within so many calls, and each tier has a word that selects it.
-- Every other loop is structural.
--
-- Redis and JSON. The Redis server is the record `Redis` of the commands that the scripts call, with
-- their documented behaviour as `IsRedis`; a script runs as one step. A counter stays below 2 ^ 63, where
-- `INCR` would fail. `JSON.parse` and `JSON.stringify` are the record `Json`, Lua's printing of numbers and
-- JavaScript's reading of them the record `Numerals`. Texts that the scripts compare are ASCII.
--
-- Not modelled: rating changes (elo-engine.ts), which need real powers; frozen views,
-- cosmetic card variants, wire schemas; of the api server all but the leases, the terminal markers, the
-- timer registry and the card validator; the web client. They are listed with reasons in the
-- development's manifest.
mod Prelude
pub mod Text
pub mod Prng
pub mod Cards
pub mod Errors
mod Tests
pub mod Match
pub mod Rules
pub mod Lease
pub mod Timers
