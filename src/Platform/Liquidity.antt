-- ===== src/Platform/Liquidity.antt =====
-- internal/platform/provider_settlement.go: the settlement bindings of the providers, their
-- liquidity pools and the reservations on them. The provisioner is part of the environment.
pub mod Pool
pub mod Bindings
pub mod Reservations
pub mod Incidents
pub mod Reserves
pub mod Reserving
pub mod Touched
pub mod Recovered
pub mod Recovery
