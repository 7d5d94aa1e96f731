-- ===== src/Platform/Invariant.antt =====
-- Every order in the store is sound, under every operation of the platform.
pub mod Base
pub mod OrderCalls
pub mod OtherCalls
pub mod Incidents
pub mod Bystanders
