-- ===== src/Market.antt =====
-- The trading calendar of packages/xbt-core/xbt_core/market.
pub mod Session
pub mod Opening
mod Tests
