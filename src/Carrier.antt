-- ===== src/Carrier.antt =====
-- internal/carrier: bindings, jobs, attempts and the event ledger, and their theorems.
pub mod Jobs
pub mod Attempts
pub mod Ledger
pub mod Evidence
pub mod Callbacks
pub mod Transitions
pub mod Replay
pub mod Chains
pub mod Sequences
