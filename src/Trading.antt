-- ===== src/Trading.antt =====
-- The trading library and service of the API worker (api/src/lib/trading, api/src/services).
pub mod Metrics
pub mod Risk
pub mod LogScan
pub mod Activity
