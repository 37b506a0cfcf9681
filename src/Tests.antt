-- ===== src/Tests.antt =====
-- The theorems applied at concrete inputs, and runs of the code's functions.
mod Data
mod Solver
mod Agents
mod Grounding
mod Auth
mod Evaluation
mod Exposure
mod Heat
mod Http
mod Projects
mod Interventions
mod Portfolio
mod Documents
mod Verification
