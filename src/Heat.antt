-- ===== src/Heat.antt =====
-- The heat analyses: the FortyGuard client, the service, the polling worker and the API.
pub mod Request
pub mod Activity
pub mod Client
pub mod Service
pub mod Poll
pub mod Worker
pub mod Api
pub mod Steps
pub mod Exposure
