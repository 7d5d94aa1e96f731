-- ===== src/Gateway.antt =====
-- internal/gateway: the commands that an award sends to a carrier.
pub mod Commands
pub mod Shell
