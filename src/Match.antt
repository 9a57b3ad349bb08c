-- ===== src/Match.antt =====
-- packages/game-core/src/match-state-machine.ts.
pub mod State
pub mod Log
pub mod Phase
pub mod Round
pub mod Evaluate
pub mod Winner
pub mod Topics
pub mod CardPlay
pub mod Rehydrate
pub mod Snapshot
pub mod Codec
pub mod Run
pub mod Synced
