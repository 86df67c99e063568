-- ===== src/Strategy/Runner.antt =====
-- api/src/services/strategy-runner.service.ts, with the rows that it writes through the
-- repositories of api/src/db. The other services are the fields of `Services`; the time and the
-- run's random id are arguments.
mod Rows
mod Updates
mod Run
pub mod Settled
pub mod Permission
pub mod Tick
pub mod ById
unfoldable pub use Rows.*
unfoldable pub use Updates.*
unfoldable pub use Run.*
