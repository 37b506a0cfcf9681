-- ===== src/Agents/Grounding.antt =====
-- app/agents/grounding.py: what a run may see of the tenant's data.
pub mod References
pub mod Facts
pub mod Rows
pub mod Resolve
pub mod Catalogue
pub mod Summary
pub mod Isolation
