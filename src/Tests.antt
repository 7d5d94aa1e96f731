-- ===== src/Tests.antt =====
-- Runs of the models on concrete data, and each theorem applied to such data.
pub mod Data
pub mod Orders
pub mod Treasury
pub mod Limits
pub mod Accounts
pub mod Lists
pub mod Market
pub mod Pools
pub mod Carriers
