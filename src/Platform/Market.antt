-- ===== src/Platform/Market.antt =====
-- What internal/platform/app.go shows of the market: listings, providers, statistics and summaries.
pub mod Listings
pub mod Providers
pub mod Queries
pub mod Summaries
pub mod Statistics
pub mod Leaderboard
pub mod Ranking
