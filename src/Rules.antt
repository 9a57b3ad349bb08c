-- ===== src/Rules.antt =====
-- The pure rules of packages/game-core/src that the match engine calls.
pub mod Scoring
pub mod Elimination
pub mod TieBreak
pub mod TopicVoting
pub mod Classes
pub mod Placements
