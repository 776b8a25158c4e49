-- ===== src/Market.antt =====
-- backend/market: the hub that hands market data to its consumers.
mod Tests
pub mod Subscriptions
