-- ===== src/Llm.antt =====
-- The tools of a language model: apps/ai-engine/app/llm.
pub mod Author
pub mod Signal
pub mod Copilot
