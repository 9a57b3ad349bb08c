-- ===== src/Cards.antt =====
-- packages/shared/src/cards.ts, classes.ts and packages/game-core/src/card-engine.ts.
pub mod Defs
pub mod Catalog
pub mod Engine
pub mod Validator
