-- ===== src/Agents/System.antt =====
-- The agent endpoints as steps on the session: what every sequence of requests keeps.
pub mod Governed
pub mod Decisions
pub mod Steps
