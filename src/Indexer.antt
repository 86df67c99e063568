-- ===== src/Indexer.antt =====
-- The subgraph's handlers (subgraph/src), which index the events of the contracts.
pub mod Entities
pub mod Snapshots
pub mod Symbols
pub mod Activities
pub mod Handlers
pub mod Events
pub mod Counters
pub mod Rules
