-- ===== src/Runtime.antt =====
-- The execution of bots: apps/bot-engine/app/runtime.
pub mod Ledger
pub mod Trading
pub mod Companion
pub mod Supervisor
pub mod Control
pub mod Router
