-- ===== src/Trading/Activity.antt =====
-- api/src/lib/trading/trade-events.ts: an agent's trade activity, read from the logs of the trade
-- router and the position manager, newest first.
mod Events
mod Scan
mod Request
pub mod Sorting
pub mod Newest
pub mod Ending
unfoldable pub use Events.*
unfoldable pub use Scan.*
unfoldable pub use Request.*
