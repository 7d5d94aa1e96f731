-- ===== src/RateLimit.antt =====
-- internal/ratelimit/service.go: fixed windows that count the calls of each key.
pub mod Service
pub mod Policies
pub mod Windows
