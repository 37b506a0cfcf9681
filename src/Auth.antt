-- ===== src/Auth.antt =====
-- app/core/auth.py and app/api/deps.py: who is asking, and for which organization.
pub mod Claims
pub mod Tenancy
