-- ===== src/Orders/History.antt =====
-- api/src/lib/subgraph/mappers.ts, the queries of api/src/services/subgraph.service.ts, and the
-- histories of api/src/services/trading.service.ts that prefer the index to the chain.
mod Graph
mod Lists
pub mod Equity
unfoldable pub use Graph.*
unfoldable pub use Lists.*
