-- ===== src/Drafts.antt =====
-- The drafts of agents and their launch (api/src/services/agent-drafts.service.ts,
-- agent-draft-wallet.service.ts, agent-launch.service.ts, api/src/jobs/abandon-stale-agent-drafts.ts).
pub mod Service
pub mod Wallet
pub mod Signing
pub mod Launch
pub mod Lifecycle
pub mod Tables
pub mod Rules
pub mod Access
pub mod Finds
pub mod Custody
pub mod Handover
pub mod Origin
pub mod Gaps
pub mod Stuck
pub mod Requests
pub mod Refinement
