-- ===== src/Registration.antt =====
-- api/src/services/agent-registration.service.ts and the transactions of
-- api/src/services/agent-registry.service.ts: agents are registered and linked by a relayer. The
-- contracts and the verification of signatures are arguments.
mod Agents
mod Service
pub mod Quote
pub mod Guards
pub mod Replay
unfoldable pub use Agents.*
unfoldable pub use Service.*
