-- ===== src/Agents.antt =====
-- The governed agent runs of app/agents.
pub mod Grounding
pub mod Providers
pub mod Evaluation
pub mod Runtime
pub mod Api
pub mod System
