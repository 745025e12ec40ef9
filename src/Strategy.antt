-- ===== src/Strategy.antt =====
-- The strategies of packages/xbt-core/xbt_core/strategies.
pub mod Base
pub mod Value
pub mod Runs
pub mod Window
pub mod Position
pub mod Dca
pub mod Grid
pub mod MaCrossover
pub mod Momentum
pub mod AiSignal
pub mod RuleEngine
