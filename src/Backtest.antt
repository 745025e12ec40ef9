-- ===== src/Backtest.antt =====
-- Backtests: apps/ai-engine/app/backtest.
pub mod Engine
pub mod Run
