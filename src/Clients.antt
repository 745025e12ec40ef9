-- ===== src/Clients.antt =====
-- The clients in apps/bot-engine/app/clients.
pub mod AiEngine
