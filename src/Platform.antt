-- ===== src/Platform.antt =====
-- internal/platform: the marketplace application over its memory repositories.
pub mod Types
pub mod LiquidityTypes
pub mod App
pub mod Triples
pub mod Credit
pub mod Liquidity
pub mod Orders
pub mod Settlement
pub mod Split
pub mod Rfqs
pub mod Feedback
pub mod Exposure
pub mod OrderSoundness
pub mod Invariant
pub mod Calls
pub mod SplitBounds
pub mod Awards
pub mod CreditOwed
pub mod CreditChecks
pub mod Bids
pub mod Market
