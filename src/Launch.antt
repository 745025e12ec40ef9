-- ===== src/Launch.antt =====
-- The start of a bot: apps/bot-engine/app/launchers.
pub mod Production
pub mod Demo
