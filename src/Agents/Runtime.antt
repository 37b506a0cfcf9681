-- ===== src/Agents/Runtime.antt =====
-- app/agents/runtime.py: the four-node planning runtime and its durable runs.
pub mod State
pub mod Nodes
pub mod Events
pub mod Execution
pub mod Approval
