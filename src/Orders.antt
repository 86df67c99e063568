-- ===== src/Orders.antt =====
-- api/src/services/trading.service.ts, trade-router.service.ts and the actions of
-- api/src/lib/strategy/executor.ts: quotes, signed intents, positions.
pub mod Errors
pub mod Chain
pub mod Router
pub mod Checks
pub mod Submit
pub mod Adjust
pub mod Positions
pub mod Quotes
pub mod Closed
pub mod History
pub mod Execute
