-- ===== src/Tokens.antt =====
-- The token catalog and human amounts (api/src/lib/tokens).
pub mod Catalog
pub mod Amount
pub mod Usd
