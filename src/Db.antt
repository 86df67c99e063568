-- ===== src/Db.antt =====
-- The tables of api/src/db that the services read and write (api/src/db/schema.ts).
pub mod Actions
pub mod Outcomes
pub mod Keys
pub mod Profiles
pub mod Signers
pub mod DraftRows
pub mod Database
