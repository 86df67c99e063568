-- ===== src/Strategy.antt =====
-- The strategy runner's library (api/src/lib/strategy, api/src/schemas/strategy.ts).
pub mod Decision
pub mod Guardrails
pub mod ExitRules
pub mod Cooldown
pub mod Executor
pub mod Runner
pub mod Adapter
