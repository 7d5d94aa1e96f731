-- ===== src/Deposits.antt =====
-- internal/services/settlement: buyer deposits, funding records and the reconciler.
pub mod Types
pub mod Amounts
pub mod Repositories
pub mod Service
pub mod Sync
pub mod RoundTrip
pub mod Lists
pub mod Accounted
pub mod Once
pub mod Reachable
pub mod Indices
pub mod Reconciler
pub mod Passes
pub mod Settling
pub mod Loop
