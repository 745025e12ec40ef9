-- ===== src/Config.antt =====
-- The configuration of strategies: packages/xbt-core/xbt_core/strategy_config.py, and
-- strategies/factory.py, which builds a strategy from it.
pub mod Schema
pub mod Dump
pub mod Accepted
pub mod Registry
pub mod Factory
pub mod Built
pub mod Keys
pub mod Fixtures
mod Tests
