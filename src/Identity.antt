-- ===== src/Identity.antt =====
-- internal/identity: users, organisations and sessions.
pub mod Store
pub mod Checks
pub mod Calls
pub mod Accounts
