-- ===== src/Core.antt =====
-- internal/core: the order aggregate of one purchase, and the credit decision engine.
pub mod Types
pub mod Order
pub mod Credit
pub mod CreditBounds
pub mod Settlement
pub mod Usage
pub mod Dispute
pub mod Soundness
