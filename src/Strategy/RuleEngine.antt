-- ===== src/Strategy/RuleEngine.antt =====
-- packages/xbt-core/xbt_core/strategies/rule_engine.py.
pub mod Config
pub mod Parse
pub mod Indicators
pub mod Conditions
pub mod Engine
